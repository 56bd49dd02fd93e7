-- ===== src/SignalService/Engine.antt =====
-- services/signal-service/app/engine.py. The thresholds of `SignalEngine` are a record, a regime is
-- its text as the consumer read it, and the new id of a signal is an argument.
pub mod Fires
pub mod Stops
use vix_75_platform.Base.{
  ℕ, String, Bool, true, false, not, ◌&&◌, ◌||◌, Option, none, some, List, [], ◌∷◌, format,
  if◌then◌else◌,
}
use vix_75_platform.Base.Dict.{text_eq}
use vix_75_platform.Base.Int.{pos}
use vix_75_platform.Float.{Float, max, min}
use vix_75_platform.Schemas.{
  ConfluenceComponents, Direction, buy, sell, show_direction, RegimeState, s0_range, s1_trend_up,
  s2_trend_down, show_regime, Signal, proposed, Timestamp, Zone, ZoneKind, supply, demand,
  ZoneState, broken, mitigated,
}
use vix_75_platform.Scoring.{ConfluenceInputs, calculate_score, trend_ok}

pub record LtfSnapshot (F : Type 0) : Type 0 where
  pub symbol : String
  pub timeframe : String
  pub ts : Timestamp
  pub close : F
  pub atr : F
  pub rsi : F
  pub ema50 : F
  pub ema200 : F
  pub zones : List (Zone F)

pub record MarketContext (F : Type 0) : Type 0 where
  pub htf_trend : String
  pub regime : String
  pub p_win : Option F
  pub rsi_divergence : Option Bool

pub record EvaluationResult (F : Type 0) : Type 0 where
  pub signal : Option (Signal F)
  pub score : F
  pub max_score : ℕ
  pub rejections : List String

pub record SignalEngine (F : Type 0) : Type 0 where
  pub min_confluence : F
  pub min_p_win : F
  pub allow_s0_fade : Bool
  pub sl_atr_buffer : F
  pub rr_tp_1 : F
  pub rr_tp_2 : F

-- `zone.state.value in {"broken", "mitigated"}`
abbrev pub is_spent : ZoneState → Bool
is_spent broken = true
is_spent mitigated = true
is_spent _ = false

abbrev pub kind_eq : ZoneKind → ZoneKind → Bool
kind_eq supply supply = true
kind_eq demand demand = true
kind_eq _ _ = false

abbrev pub direction_of : ZoneKind → Direction
direction_of demand = buy
direction_of supply = sell

-- `RegimeState(raw)`, or `None` where it raises.
unfoldable pub resolve_regime : String → Option RegimeState
resolve_regime raw =
    if text_eq raw (show_regime s0_range)
    then some s0_range
    else if text_eq raw (show_regime s1_trend_up)
    then some s1_trend_up
    else if text_eq raw (show_regime s2_trend_down)
    then some s2_trend_down
    else none

abbrev pub is_range : RegimeState → Bool
is_range s0_range = true
is_range _ = false

-- `bool(flag)` of an optional flag
abbrev pub is_set : Option Bool → Bool
is_set none = false
is_set (some b) = b

module _ {F : Type 0} ⦃d : Float F⦄ where
  unfoldable pub htf_trend_from_emas : F → F → String
  htf_trend_from_emas ema50 ema200 =
      if d.lt ema200 ema50 then "up" else if d.lt ema50 ema200 then "down" else "flat"

  -- `zone.bottom <= close <= zone.top`
  abbrev pub contains : Zone F → F → Bool
  contains zone close = d.le zone.bottom close && d.le close zone.top

  abbrev pub zone_touch : List (Zone F) → F → Option (ZoneKind × Direction)
  zone_touch [] close = none
  zone_touch (zone ∷ zones) close =
      if is_spent zone.state
      then zone_touch zones close
      else if not (contains zone close)
      then zone_touch zones close
      else some (zone.kind, direction_of zone.kind)

  abbrev pub bbma_proxy : LtfSnapshot F → Bool
  bbma_proxy ltf =
      (d.le ltf.ema50 ltf.close && d.lt ltf.rsi (d.lit 70 0))
      || (d.le ltf.close ltf.ema50 && d.lt (d.lit 30 0) ltf.rsi)

  abbrev pub edge_of : ZoneKind → Zone F → F
  edge_of demand zone = zone.bottom
  edge_of supply zone = zone.top

  abbrev pub zone_edge : ZoneKind → List (Zone F) → F → F
  zone_edge kind [] close = close
  zone_edge kind (zone ∷ zones) close =
      if kind_eq zone.kind kind && contains zone close
      then edge_of kind zone
      else zone_edge kind zones close

  -- `sl`, and the two targets at `rr_tp_1` and `rr_tp_2` times the distance to it.
  abbrev pub stop : SignalEngine F → Direction → F → F → F → F
  stop engine buy edge entry atr =
      min (d.sub edge (d.mul engine.sl_atr_buffer atr)) (d.sub entry (d.mul (d.lit 1 1) atr))
  stop engine sell edge entry atr =
      max (d.add edge (d.mul engine.sl_atr_buffer atr)) (d.add entry (d.mul (d.lit 1 1) atr))

  abbrev pub target : F → Direction → F → F → F
  target rr buy entry sl = d.add entry (d.mul rr (d.sub entry sl))
  target rr sell entry sl = d.sub entry (d.mul rr (d.sub sl entry))

  unfoldable pub build_signal :
      SignalEngine F
      → String
      → LtfSnapshot F
      → Direction
      → ZoneKind
      → ℕ
      → ConfluenceComponents
      → Signal F
  build_signal engine id ltf direction zone_kind score components =
      let edge = zone_edge zone_kind ltf.zones ltf.close in
      let sl = stop engine direction edge ltf.close ltf.atr in
      record {
        id = id;
        created_ts = ltf.ts;
        symbol = ltf.symbol;
        ltf_timeframe = ltf.timeframe;
        direction = direction;
        entry = d.round ltf.close 5;
        sl = d.round sl 5;
        tp1 = d.round (target engine.rr_tp_1 direction ltf.close sl) 5;
        tp2 = d.round (target engine.rr_tp_2 direction ltf.close sl) 5;
        score = score;
        max_score = 7;
        components = components;
        p_win = none;
        status = proposed;
      }

  -- `_reject`
  abbrev pub refusal : String → EvaluationResult F
  refusal reason = record {
    signal = none;
    score = d.lit 0 0;
    max_score = 7;
    rejections = reason ∷ [];
  }

  abbrev pub inputs_of :
      SignalEngine F
      → LtfSnapshot F
      → MarketContext F
      → ZoneKind
      → Direction
      → RegimeState
      → ConfluenceInputs F
  inputs_of engine ltf market zone_kind direction regime = record {
    direction = direction;
    htf_trend = market.htf_trend;
    regime = regime;
    zone_kind_touched = some zone_kind;
    bbma_confirms = bbma_proxy ltf;
    rsi_divergence = is_set market.rsi_divergence;
    p_win = market.p_win;
    allow_s0_fade = engine.allow_s0_fade;
  }

  -- The score and what follows it, once the gates of `evaluate` are passed.
  unfoldable pub conclude :
      SignalEngine F
      → String
      → LtfSnapshot F
      → MarketContext F
      → ZoneKind × Direction
      → RegimeState
      → EvaluationResult F
  conclude engine id ltf market (zone_kind, direction) regime =
      let result =
        calculate_score engine.min_confluence engine.min_p_win
          (inputs_of engine ltf market zone_kind direction regime) in
      record {
        signal =
            if result.passed
            then some
                (build_signal engine id ltf direction zone_kind result.score result.components)
            else none;
        score = d.of_int (pos result.score);
        max_score = result.max_score;
        rejections = if result.passed then [] else result.rejections;
      }

  -- `evaluate` with the regime and the trend still to be judged. `repr` is Python's `!r`.
  unfoldable pub judge :
      (String → String)
      → SignalEngine F
      → String
      → LtfSnapshot F
      → MarketContext F
      → Option RegimeState
      → ZoneKind × Direction
      → EvaluationResult F
  judge repr engine id ltf market none touched =
      refusal (
        format ("invalid_signal: unknown HMM regime " ∷ repr market.regime ∷ " (fail-closed)" ∷ []))
  judge repr engine id ltf market (some regime) touched =
      if is_range regime && not engine.allow_s0_fade
      then refusal (format ("regime_gate_blocked: " ∷ show_regime regime ∷ []))
      else if not (trend_ok touched.1 market.htf_trend) && not engine.allow_s0_fade
      then refusal (
          format (
            "htf_alignment_blocked: "
            ∷ show_direction touched.1
            ∷ " against "
            ∷ market.htf_trend
            ∷ " macro trend"
            ∷ []))
      else conclude engine id ltf market touched regime

  unfoldable pub evaluate :
      (String → String)
      → SignalEngine F
      → String
      → LtfSnapshot F
      → MarketContext F
      → EvaluationResult F
  evaluate repr engine id ltf market = elim (zone_touch ltf.zones ltf.close) [
    | none ↦ refusal "no_active_zone_touch"
    | some touched ↦ judge repr engine id ltf market (resolve_regime market.regime) touched
  ]
