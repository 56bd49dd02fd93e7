-- ===== src/FeatureService/Consumer.antt =====
-- services/feature-service/app/consumer.py: a bar event becomes a feature row and an event, stays pending
-- or goes to the dead-letter stream. Log lines are left out.
pub mod Settled
use vix_75_platform.Base.{
  ℕ, ◌+◌, String, Bool, true, false, not, ◌||◌, Option, none, some, List, [], ◌∷◌, ◌++◌, ◌==◌, leb,
  ltb, length, format, is_some, if◌then◌else◌,
}
use vix_75_platform.Base.Dict.{Dict, lookup, insert}
use vix_75_platform.Base.Result.{Result, ok, raise, ◌>>=◌}
use vix_75_platform.Correlation.{get_or_create_correlation_id, get_text, stream_fields}
use vix_75_platform.Float.{Float}
use vix_75_platform.Redis.{Redis}
use vix_75_platform.Schemas.{Bar, Timestamp, Zone}
use vix_75_platform.NotifyService.Consumer.{MessageId, decode}
use vix_75_platform.FeatureService.Compute.{
  FeatureFrame, Series, Snapshot, snapshot_from_bars, upsert_feature_row,
}

abbrev pub stream_out : String
stream_out = "feature.computed"

abbrev pub stream_dlq : String
stream_dlq = "ohlcv.update:dlq"

abbrev pub max_deliveries : ℕ
max_deliveries = 3

abbrev pub min_bars : ℕ
min_bars = 250

-- What the service takes from outside for one message: a fresh id, the answer of `xpending_range`, the
-- bars that the database returns or the exception it raises, and the libraries of the computation.
pub record FeatureEnv (F : Type 0) : Type 0 where
  pub fresh_id : String
  pub pending : Option (Dict ℕ)
  pub fetch_bars : String → String → Result (List (Bar F))
  pub build_frame : List (Bar F) → FeatureFrame F
  pub isoformat : Timestamp → String

pub record FeatureConsumer (F R : Type 0) : Type 0 where
  pub redis : R
  pub features : List (Snapshot F)
  pub acked : List MessageId
  pub processed : ℕ

pub record Message : Type 0 where
  pub message_id : MessageId
  pub fields : Dict String

-- `entry.get(a) or entry.get(b) or 1`
abbrev pub count_or : Option ℕ → ℕ → ℕ
count_or none other = other
count_or (some n) other = if n == 0 then other else n

unfoldable pub delivery_count : Option (Dict ℕ) → ℕ
delivery_count none = 1
delivery_count (some entry) =
    count_or (lookup "times_delivered" entry) (count_or (lookup "time_delivered" entry) 1)

module _ {F : Type 0} where
  -- `",".join(zone_ids)`
  abbrev pub joined_ids : List (Zone F) → String
  joined_ids [] = ""
  joined_ids (z ∷ []) = z.id
  joined_ids (z ∷ (y ∷ zones)) = format (z.id ∷ "," ∷ joined_ids (y ∷ zones) ∷ [])

module _ {F : Type 0} ⦃d : Float F⦄ where
  unfoldable pub feature_entry : String → String → Snapshot F → Dict String
  feature_entry fresh_id cid snapshot =
      stream_fields fresh_id
        (("symbol", snapshot.symbol)
          ∷ ("timeframe", snapshot.timeframe)
          ∷ ("ts", snapshot.ts)
          ∷ ("close", d.show snapshot.series.close)
          ∷ ("rsi", d.show snapshot.series.rsi)
          ∷ ("atr_norm", d.show snapshot.series.atr_norm)
          ∷ ("zone_ids", joined_ids snapshot.zones)
          ∷ [])
        (some cid)

module _ {F R : Type 0} where
  -- `_ack`
  abbrev pub ack : MessageId → FeatureConsumer F R → FeatureConsumer F R
  ack id s = record s { acked = s.acked ++ (id ∷ []) }

module _ {F R : Type 0} ⦃c : Redis R⦄ where
  abbrev pub buried :
      MessageId
      → Dict String
      → String
      → Result String
      → FeatureConsumer F R
      → FeatureConsumer F R × Result (Unit {0})
  buried id fields reason (raise e) s = (s, raise e)
  buried id fields reason (ok original) s =
      let payload = insert "original_id" original (insert "dlq_reason" reason fields) in
      (ack id (record s { redis = c.xadd stream_dlq payload s.redis }), ok tt)

  -- `_dead_letter`, which decodes the id before it writes.
  pub dead_letter :
      MessageId
      → Dict String
      → String
      → FeatureConsumer F R
      → FeatureConsumer F R × Result (Unit {0})
  dead_letter id fields reason s = buried id fields reason (decode id) s

module _ {F R : Type 0} ⦃d : Float F⦄ ⦃c : Redis R⦄ (env : FeatureEnv F) where
  abbrev pub store :
      String → Result (Snapshot F) → FeatureConsumer F R → Result (FeatureConsumer F R)
  store cid (raise e) s = raise e
  store cid (ok snapshot) s = ok (record s {
    features = upsert_feature_row snapshot s.features;
    redis = c.xadd stream_out (feature_entry env.fresh_id cid snapshot) s.redis;
  })

  unfoldable pub process_bar_event :
      String → String → String → FeatureConsumer F R → Result (FeatureConsumer F R)
  process_bar_event symbol timeframe cid s = env.fetch_bars symbol timeframe >>= λ bars.
      if ltb (length bars) min_bars
      then ok s
      else store cid (snapshot_from_bars env.isoformat env.build_frame bars symbol timeframe) s

  -- The second acknowledgement of a message that failed too often.
  abbrev pub ack_again :
      MessageId → FeatureConsumer F R × Result (Unit {0}) → FeatureConsumer F R × Result (Unit {0})
  ack_again id (s, raise e) = (s, raise e)
  ack_again id (s, ok _) = (ack id s, ok tt)

  abbrev pub finish :
      MessageId
      → Dict String
      → FeatureConsumer F R
      → Result (FeatureConsumer F R)
      → FeatureConsumer F R × Result (Unit {0})
  finish id fields s (ok s') = (record (ack id s') { processed = s'.processed + 1 }, ok tt)
  finish id fields s (raise e) =
      if leb max_deliveries (delivery_count env.pending)
      then ack_again id (dead_letter id fields "max_deliveries" s)
      else (s, ok tt)

  -- With the symbol and the timeframe, where they are there and not empty.
  abbrev pub handle_event :
      MessageId
      → Dict String
      → (symbol timeframe : Option String) → FeatureConsumer F R
      → FeatureConsumer F R × Result (Unit {0})
  handle_event id fields (some symbol) (some timeframe) s =
      if is_some (lookup "ts" fields)
      then finish id fields s
          (process_bar_event symbol timeframe (get_or_create_correlation_id env.fresh_id fields) s)
      else dead_letter id fields "malformed" s
  handle_event id fields none timeframe s = dead_letter id fields "malformed" s
  handle_event id fields (some symbol) none s = dead_letter id fields "malformed" s

  unfoldable pub handle : Message → FeatureConsumer F R → FeatureConsumer F R × Result (Unit {0})
  handle message s =
      handle_event message.message_id message.fields (get_text "symbol" message.fields)
        (get_text "timeframe" message.fields) s
