-- ===== src/RiskService/Handler.antt =====
-- The message loop of services/risk-service/app/consumer.py: `_handle` and the loop of `drain`.
use vix_75_platform.Base.{cut, ℕ, String, ◌+◌, Option, none, some, List, [], ◌∷◌}
use vix_75_platform.Base.Dict.{Dict, lookup}
use vix_75_platform.Base.Int.{pos}
use vix_75_platform.Base.Result.{Result, ok, raise, value_error, key_error}
use vix_75_platform.Correlation.{get_or_create_correlation_id, stream_fields}
use vix_75_platform.Float.{Float}
use vix_75_platform.Json.{JsonLib}
use vix_75_platform.Redis.{Redis}
use vix_75_platform.Schemas.{Signal, OrderRequest, RejectionReason, show_direction}
use vix_75_platform.RiskService.Exposure.{OpenPosition, ExposureTracker, register}
use vix_75_platform.RiskService.Consumer.{
  Decision, approve, refuse, RiskSettings, RiskConsumer, stream_approved, stream_rejected,
  show_reason, decide,
}

-- What the service takes from outside: pydantic's parser of a signal (`none` for an empty document),
-- and the texts of `uuid4().hex` and of the clock.
pub record RiskEnv (F : Type 0) : Type 0 where
  pub parse_signal : String → Result (Option (Signal F))
  pub fresh_id : String
  pub now_iso : String

-- A message of the stream: its id and its decoded fields.
abbrev pub Message : Type 0
Message = String × Dict String

module _ {F : Type 0} ⦃d : Float F⦄ where
  abbrev pub order_of : Signal F → F → OrderRequest F
  order_of signal lots = record {
    idempotency_key = signal.id;
    signal_id = signal.id;
    symbol = signal.symbol;
    direction = signal.direction;
    lots = lots;
    entry = signal.entry;
    sl = signal.sl;
    tp = signal.tp1;
    deviation_points = 30;
  }

  -- `order.model_dump(mode="json")`, its values as `stream_fields` turns them into texts.
  abbrev pub order_fields : OrderRequest F → Dict String
  order_fields o =
      ("idempotency_key", o.idempotency_key)
      ∷ ("signal_id", o.signal_id)
      ∷ ("symbol", o.symbol)
      ∷ ("direction", show_direction o.direction)
      ∷ ("lots", d.show o.lots)
      ∷ ("entry", d.show o.entry)
      ∷ ("sl", d.show o.sl)
      ∷ ("tp", d.show o.tp)
      ∷ ("deviation_points", d.show_int (pos o.deviation_points))
      ∷ []

  abbrev pub position_for : RiskEnv F → OrderRequest F → F → OpenPosition F
  position_for env o risk_amount = record {
    idempotency_key = o.idempotency_key;
    signal_id = o.signal_id;
    symbol = o.symbol;
    direction = o.direction;
    lots = o.lots;
    entry = o.entry;
    sl = o.sl;
    risk_amount = risk_amount;
    opened_ts = env.now_iso;
  }

  abbrev pub rejection_fields : Signal F → RejectionReason → String → Dict String
  rejection_fields signal reason detail =
      ("signal_id", signal.id)
      ∷ ("symbol", signal.symbol)
      ∷ ("direction", show_direction signal.direction)
      ∷ ("rejected_reason", show_reason reason)
      ∷ ("detail", cut 300 detail)
      ∷ []

module _ {F : Type 0} ⦃d : Float F⦄ where
  -- The two entries, with the correlation id of the message.
  unfoldable pub order_entry : RiskEnv F → String → Signal F → F → Dict String
  order_entry env cid signal lots =
      stream_fields env.fresh_id (order_fields (order_of signal lots)) (some cid)

  unfoldable pub rejection_entry :
      RiskEnv F → String → Signal F → RejectionReason → String → Dict String
  rejection_entry env cid signal reason detail =
      stream_fields env.fresh_id (rejection_fields signal reason detail) (some cid)

module _ {F : Type 0} where
  -- The payload: absent or empty, malformed, or a signal.
  unfoldable pub read_signal : RiskEnv F → Dict String → Result (Option (Signal F))
  read_signal env decoded = elim (lookup "signal" decoded) [
    | none ↦ ok none
    | some raw ↦ elim (env.parse_signal raw) [
      | ok signal ↦ ok signal
      | raise (value_error _) ↦ ok none
      | raise (key_error _) ↦ ok none
      | raise e ↦ raise e
    ]
  ]

module _ {F R : Type 0} ⦃d : Float F⦄ ⦃j : JsonLib F⦄ ⦃c : Redis R⦄ (env : RiskEnv F) where
  -- The commands that follow a decision.
  unfoldable pub act : String → Signal F → Decision F → RiskConsumer F R → RiskConsumer F R
  act cid signal (approve lots risk_amount) s =
      let order = order_of signal lots in
      let sent = c.xadd stream_approved (order_entry env cid signal lots) s.redis in
      let (r, tracker) = register (position_for env order risk_amount) (some sent) s.tracker in
      record s {
        redis = elim r [ some r' ↦ r' | none ↦ s.redis ];
        tracker = tracker;
        approved_count = s.approved_count + 1;
      }
  act cid signal (refuse reason detail) s = record s {
    redis = c.xadd stream_rejected (rejection_entry env cid signal reason detail) s.redis;
    rejected_count = s.rejected_count + 1;
  }

  unfoldable pub conclude :
      String
      → Signal F
      → RiskConsumer F R
      → ExposureTracker F × Result (Decision F)
      → RiskConsumer F R × Result (Unit {0})
  conclude cid signal s (tracker, ok decision) =
      (act cid signal decision (record s { tracker = tracker }), ok tt)
  conclude cid signal s (tracker, raise e) = (record s { tracker = tracker }, raise e)

  -- What is done with a payload: a valid signal is decided.
  unfoldable pub respond :
      ℕ
      → RiskSettings F
      → String
      → RiskConsumer F R
      → Result (Option (Signal F))
      → RiskConsumer F R × Result (Unit {0})
  respond fuel settings cid s (raise e) = (s, raise e)
  respond fuel settings cid s (ok none) = (s, ok tt)
  respond fuel settings cid s (ok (some signal)) =
      conclude cid signal s (decide fuel settings s.redis s.tracker signal)

  -- `_handle`: `finally` counts the message, also where an exception goes on.
  unfoldable pub handle :
      ℕ → RiskSettings F → Dict String → RiskConsumer F R → RiskConsumer F R × Result (Unit {0})
  handle fuel settings decoded s =
      let cid = get_or_create_correlation_id env.fresh_id decoded in
      let (s', outcome) = respond fuel settings cid s (read_signal env decoded) in
      (record s' { processed = s'.processed + 1 }, outcome)

  -- The loop of `drain` over one batch: the state, the messages acknowledged so far, and the
  -- exception that ended the batch, if one did.
  unfoldable pub handle_all :
      ℕ
      → RiskSettings F
      → List Message
      → RiskConsumer F R
      → RiskConsumer F R × List String × Result (Unit {0})
  handle_all fuel settings [] s = (s, [], ok tt)
  handle_all fuel settings ((id, fields) ∷ messages) s =
      let handled = handle fuel settings fields s in
      let rest = handle_all fuel settings messages handled.0 in
      elim handled.1 [ raise e ↦ (handled.0, [], raise e) | ok _ ↦ (rest.0, id ∷ rest.1, rest.2) ]
