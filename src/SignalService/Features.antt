-- ===== src/SignalService/Features.antt =====
-- The tables `features` and `signals` of services/signal-service/app/db.py. A row of `features` is its
-- columns; the JSON of its zones is parsed by pydantic, outside this code.
use vix_75_platform.Base.{
  String, Bool, true, false, ◌&&◌, not, Option, none, some, List, [], ◌∷◌, ◌++◌, any, leb,
  if◌then◌else◌,
}
use vix_75_platform.Base.Dict.{Dict, lookup, insert, text_eq}
use vix_75_platform.Base.Result.{Result, ok, raise, type_error, ◌>>=◌}
use vix_75_platform.Float.{Float}
use vix_75_platform.Schemas.{Signal, Timestamp, Zone}
use vix_75_platform.Schemas.Uuid.{uuid_from_hex}
use vix_75_platform.SignalService.Engine.{LtfSnapshot, htf_trend_from_emas}

-- A column may be NULL. `zones` is what the parser makes of the column, or the exception it raises.
pub record FeatureRow (F : Type 0) : Type 0 where
  pub symbol : String
  pub timeframe : String
  pub ts : Timestamp
  pub close : Option F
  pub atr : Option F
  pub rsi : Option F
  pub ema50 : Option F
  pub ema200 : Option F
  pub zones : Result (List (Zone F))

pub record SignalDatabase (F : Type 0) : Type 0 where
  pub features : List (FeatureRow F)
  pub signals : Dict (Signal F)

module _ {F : Type 0} where
  -- `float(column)`
  abbrev pub column : Option F → Result F
  column none = raise type_error
  column (some x) = ok x

  -- The row of the newest `ts`; of two, the one found first.
  abbrev pub newest : Option (FeatureRow F) → List (FeatureRow F) → Option (FeatureRow F)
  newest best [] = best
  newest none (row ∷ rows) = newest (some row) rows
  newest (some b) (row ∷ rows) = newest (some (if leb row.ts b.ts then b else row)) rows

  abbrev pub rows_of : String → String → List (FeatureRow F) → List (FeatureRow F)
  rows_of symbol timeframe [] = []
  rows_of symbol timeframe (row ∷ rows) =
      if text_eq row.symbol symbol && text_eq row.timeframe timeframe
      then row ∷ rows_of symbol timeframe rows
      else rows_of symbol timeframe rows

  -- `_FETCH_FEATURE_SQL`
  unfoldable pub fetch_feature : String → String → SignalDatabase F → Option (FeatureRow F)
  fetch_feature symbol timeframe db = newest none (rows_of symbol timeframe db.features)

  -- `_row_to_snapshot`
  abbrev pub row_to_snapshot : String → String → FeatureRow F → Result (LtfSnapshot F)
  row_to_snapshot symbol timeframe row = do
    zones ← row.zones
    close ← column row.close
    atr ← column row.atr
    rsi ← column row.rsi
    ema50 ← column row.ema50
    ema200 ← column row.ema200
    ok (record {
      symbol = symbol;
      timeframe = timeframe;
      ts = row.ts;
      close = close;
      atr = atr;
      rsi = rsi;
      ema50 = ema50;
      ema200 = ema200;
      zones = zones;
    })

  unfoldable pub fetch_ltf_row :
      String → String → SignalDatabase F → Result (Option (LtfSnapshot F))
  fetch_ltf_row symbol timeframe db = elim (fetch_feature symbol timeframe db) [
    | none ↦ ok none
    | some row ↦ row_to_snapshot symbol timeframe row >>= λ ltf. ok (some ltf)
  ]

  -- `ON CONFLICT (id) DO NOTHING`: whether a row was inserted.
  unfoldable pub insert_signal : Signal F → SignalDatabase F → Result (Bool × SignalDatabase F)
  insert_signal signal db = uuid_from_hex signal.id >>= λ id. elim (lookup id db.signals) [
    | some _ ↦ ok (false, db)
    | none ↦ ok (true, record db { signals = insert id signal db.signals })
  ]

abbrev pub has_vote : String → List String → Bool
has_vote v votes = any (λ x. text_eq x v) votes

-- One side without the other, else the first vote.
unfoldable pub decide_trend : List String → String
decide_trend votes =
    if has_vote "up" votes && not (has_vote "down" votes)
    then "up"
    else if has_vote "down" votes && not (has_vote "up" votes)
    then "down"
    else elim votes [ [] ↦ "flat" | vote ∷ _ ↦ vote ]

module _ {F : Type 0} ⦃d : Float F⦄ where
  -- The vote of a timeframe, if its row has both averages.
  abbrev pub vote_of : Option (FeatureRow F) → List String
  vote_of none = []
  vote_of (some row) = elim row.ema50 [
    | none ↦ []
    | some ema50 ↦ elim row.ema200 [
      | none ↦ []
      | some ema200 ↦ htf_trend_from_emas ema50 ema200 ∷ []
    ]
  ]

  abbrev pub votes_of : String → List String → SignalDatabase F → List String
  votes_of symbol [] db = []
  votes_of symbol (timeframe ∷ timeframes) db =
      vote_of (fetch_feature symbol timeframe db) ++ votes_of symbol timeframes db

  unfoldable pub fetch_htf_trend : String → List String → SignalDatabase F → String
  fetch_htf_trend symbol timeframes db = decide_trend (votes_of symbol timeframes db)
