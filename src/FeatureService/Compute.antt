-- ===== src/FeatureService/Compute.antt =====
-- `snapshot_from_bars` of services/feature-service/app/compute.py, with the table `features` of db.py. The
-- series are computed by numpy and scipy: their last values are an argument.
use vix_75_platform.Base.{
  ℕ, String, Bool, true, false, not, ◌&&◌, Option, none, some, List, [], ◌∷◌, ltb, length,
  if◌then◌else◌,
}
use vix_75_platform.Base.Dict.{text_eq}
use vix_75_platform.Base.Result.{Result, ok, raise, value_error}
use vix_75_platform.Schemas.{Bar, Timestamp, Zone}
use vix_75_platform.Zones.{is_broken}

abbrev pub feature_window : ℕ
feature_window = 500

abbrev pub warmup_index : ℕ
warmup_index = 199

pub data SwingKind : Type 0 where
  high low : SwingKind

pub record Swing (F : Type 0) : Type 0 where
  pub price : F
  pub kind : SwingKind

-- The last value of each series of a `FeatureFrame`.
pub record Series (F : Type 0) : Type 0 where
  pub close : F
  pub atr : F
  pub atr_norm : F
  pub rsi : F
  pub ema50 : F
  pub ema200 : F
  pub bb_upper : F
  pub bb_mid : F
  pub bb_lower : F
  pub stoch_k : F
  pub stoch_d : F
  pub log_return : F
  pub realized_vol : F

-- What the libraries make of a window of bars: whether every series is finite from the warm-up on, the
-- last values, the swings in order, and the zones.
pub record FeatureFrame (F : Type 0) : Type 0 where
  pub is_complete : Bool
  pub last : Series F
  pub swings : List (Swing F)
  pub zones : List (Zone F)

-- The last bar's time as a text, and the columns of the row.
pub record Snapshot (F : Type 0) : Type 0 where
  pub symbol : String
  pub timeframe : String
  pub ts : String
  pub series : Series F
  pub swing_high : Option F
  pub swing_low : Option F
  pub zones : List (Zone F)

abbrev pub same_kind : SwingKind → SwingKind → Bool
same_kind high high = true
same_kind low low = true
same_kind _ _ = false

module _ {F : Type 0} where
  -- The price of the last swing of a kind.
  abbrev pub last_price : SwingKind → Option F → List (Swing F) → Option F
  last_price kind found [] = found
  last_price kind found (s ∷ swings) =
      last_price kind (if same_kind s.kind kind then some s.price else found) swings

  abbrev pub latest_pivots : List (Swing F) → Option F × Option F
  latest_pivots swings = (last_price high none swings, last_price low none swings)

  abbrev pub live_zones : List (Zone F) → List (Zone F)
  live_zones [] = []
  live_zones (z ∷ zones) = if is_broken z.state then live_zones zones else z ∷ live_zones zones

  -- `bars[-1].ts.isoformat()`
  abbrev pub last_ts : (Timestamp → String) → List (Bar F) → String
  last_ts isoformat [] = ""
  last_ts isoformat (b ∷ []) = isoformat b.ts
  last_ts isoformat (_ ∷ (b ∷ bars)) = last_ts isoformat (b ∷ bars)

  unfoldable pub snapshot_from_bars :
      (Timestamp → String)
      → (List (Bar F) → FeatureFrame F)
      → List (Bar F)
      → String
      → String
      → Result (Snapshot F)
  snapshot_from_bars isoformat build_frame bars symbol timeframe =
      let frame = build_frame bars in
      let (swing_high, swing_low) = latest_pivots frame.swings in
      if ltb (length bars) 200
      then raise (value_error "need at least 200 bars")
      else if not frame.is_complete
      then raise (value_error "feature window incomplete; refusing to publish NaNs")
      else ok (record {
        symbol = symbol;
        timeframe = timeframe;
        ts = last_ts isoformat bars;
        series = frame.last;
        swing_high = swing_high;
        swing_low = swing_low;
        zones = live_zones frame.zones;
      })

  -- The conflict key of `_UPSERT_FEATURE_SQL`.
  abbrev pub same_row : Snapshot F → Snapshot F → Bool
  same_row a b = text_eq a.symbol b.symbol && (text_eq a.timeframe b.timeframe && text_eq a.ts b.ts)

  unfoldable pub upsert_feature_row : Snapshot F → List (Snapshot F) → List (Snapshot F)
  upsert_feature_row row [] = row ∷ []
  upsert_feature_row row (old ∷ rows) =
      let rest = upsert_feature_row row rows in if same_row old row then row ∷ rows else old ∷ rest
