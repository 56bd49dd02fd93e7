-- ===== src/Mt5/Reading.antt =====
-- What `copy_bars`, `symbol_snapshot` and `constraints` of packages/vix_core/vix_core/mt5_client.py read
-- from the terminal.
use vix_75_platform.Base.{
  ℕ, ◌+◌, String, Bool, true, false, ◌&&◌, Option, none, some, List, [], ◌∷◌, format, if◌then◌else◌,
}
use vix_75_platform.Base.Dict.{text_eq}
use vix_75_platform.Base.Int.{ℤ}
use vix_75_platform.Base.Result.{Result, ok, raise, value_error, runtime_error, ◌>>=◌}
use vix_75_platform.Float.{Float, nought}
use vix_75_platform.Schemas.{Bar}
use vix_75_platform.Sizing.{SymbolConstraints}
use vix_75_platform.Execution.Executor.{Tick}
use vix_75_platform.Mt5.{Rate, Mt5Package, Mt5Client, require_mt5}

pub record SymbolSnapshot (F : Type 0) : Type 0 where
  pub symbol : String
  pub digits : ℕ
  pub point : F
  pub tick_size : F
  pub tick_value : F
  pub volume_min : F
  pub volume_max : F
  pub volume_step : F
  pub stops_level_points : ℤ
  pub margin_per_lot : F

-- `TIMEFRAME_MAP.get(timeframe)`
abbrev pub timeframe_map : String → Option ℕ
timeframe_map tf =
    if text_eq tf "M1"
    then some 1
    else if text_eq tf "M5"
    then some 5
    else if text_eq tf "M15"
    then some 15
    else if text_eq tf "M30"
    then some 30
    else if text_eq tf "H1"
    then some 16385
    else if text_eq tf "H4"
    then some 16388
    else if text_eq tf "D1"
    then some 16408
    else none

module _ {F : Type 0} where
  abbrev pub to_utc_bar : Rate F → Bar F
  to_utc_bar row = record {
    ts = row.time;
    open_price = row.open_price;
    high = row.high;
    low = row.low;
    close = row.close;
    tick_volume = row.tick_volume;
  }

  -- The bars of `rates[:-1]`.
  abbrev pub closed_bars : Rate F → List (Rate F) → List (Bar F)
  closed_bars row [] = []
  closed_bars row (next ∷ rates) = to_utc_bar row ∷ closed_bars next rates

  abbrev pub bars_of : String → String → Option (List (Rate F)) → Result (List (Bar F))
  bars_of symbol error none =
      raise (runtime_error (format ("copy_rates failed for " ∷ symbol ∷ ": " ∷ error ∷ [])))
  bars_of symbol error (some []) =
      raise (runtime_error (format ("copy_rates failed for " ∷ symbol ∷ ": " ∷ error ∷ [])))
  bars_of symbol error (some (row ∷ rates)) = ok (closed_bars row rates)

module _ {F : Type 0} ⦃d : Float F⦄ where
  -- `float(order_cost) if order_cost else 0.0`
  abbrev pub cost_of : Option F → F
  cost_of none = nought
  cost_of (some x) = x

  -- `x or y`
  abbrev pub nonzero_or : F → F → F
  nonzero_or x y = if d.le x nought && d.le nought x then y else x

module _ {F T : Type 0} ⦃d : Float F⦄ ⦃m : Mt5Package F T⦄ where
  unfoldable pub copy_bars : String → String → ℕ → Mt5Client F T → Result (List (Bar F))
  copy_bars symbol timeframe count s = require_mt5 s.terminal >>= λ t.
      elim (timeframe_map timeframe) [
        | none ↦ raise (value_error (format ("unsupported timeframe '" ∷ timeframe ∷ "'" ∷ [])))
        | some tf ↦
            bars_of symbol (m.last_error t) (m.copy_rates_from_pos symbol tf 0 (count + 1) t)
      ]

  abbrev pub margin_of : String → Option (Tick F) → Bool → T → F
  margin_of symbol (some tick) true t = cost_of (m.order_calc_margin symbol (d.lit 1 0) tick.ask t)
  margin_of symbol (some tick) false t = nought
  margin_of symbol none account t = nought

  unfoldable pub symbol_snapshot : String → Mt5Client F T → Result (SymbolSnapshot F)
  symbol_snapshot symbol s = require_mt5 s.terminal >>= λ t. elim (m.symbol_info symbol t) [
    | none ↦ raise (runtime_error (format ("symbol_info returned None for " ∷ symbol ∷ [])))
    | some info ↦ ok (record {
      symbol = symbol;
      digits = info.digits;
      point = info.point;
      tick_size = nonzero_or info.trade_tick_size info.point;
      tick_value = info.trade_tick_value;
      volume_min = info.volume_min;
      volume_max = info.volume_max;
      volume_step = info.volume_step;
      stops_level_points = info.trade_stops_level;
      margin_per_lot = margin_of symbol (m.symbol_info_tick symbol t) (m.has_account t) t;
    })
  ]

  unfoldable pub constraints : String → Mt5Client F T → Result (SymbolConstraints F)
  constraints symbol s = symbol_snapshot symbol s >>= λ snap. ok (record {
    volume_min = snap.volume_min;
    volume_max = snap.volume_max;
    volume_step = snap.volume_step;
    tick_size = snap.tick_size;
    tick_value = snap.tick_value;
    point = snap.point;
    stops_level_points = snap.stops_level_points;
    margin_per_lot = snap.margin_per_lot;
  })
