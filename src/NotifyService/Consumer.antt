-- ===== src/NotifyService/Consumer.antt =====
-- services/notify-service/app/consumer.py, with the audit trail of lifecycle.py. Log lines are left out.
pub mod Trail
use vix_75_platform.Base.{
  ℕ, ◌+◌, String, Bool, true, false, Option, none, some, List, [], ◌∷◌, ◌++◌, if◌then◌else◌,
}
use vix_75_platform.Base.Dict.{Dict, lookup, merge, text_eq}
use vix_75_platform.Base.Result.{Result, ok, raise, value_error, type_error, attribute_error, ◌>>=◌}
use vix_75_platform.Correlation.{get_or_create_correlation_id, get_text}
use vix_75_platform.Float.{Float}
use vix_75_platform.Json.{JsonLib, JsonValue, null, text}
use vix_75_platform.NotifyService.Telegram.{
  TelegramSender, send, texts, format_generated, format_filled, format_rejected, format_closed,
}

-- The id of a message: a text where the client decodes responses, and bytes else.
pub data MessageId : Type 0 where
  bytes str : String → MessageId

-- `message_id.decode()`
abbrev pub decode : MessageId → Result String
decode (bytes s) = ok s
decode (str s) = raise attribute_error

-- A row of `audit_log`; the actor is "notify-service".
pub record Event (F : Type 0) : Type 0 where
  pub event : String
  pub subject : String
  pub outcome : String
  pub payload : Dict (JsonValue F)

pub record LifecycleLogger (F : Type 0) : Type 0 where
  pub audit_log : List (Event F)
  pub recorded : ℕ

pub record NotifyConsumer (F : Type 0) : Type 0 where
  pub alert_rejections : Bool
  pub lifecycle : LifecycleLogger F
  pub sender : TelegramSender
  pub processed : ℕ
  pub alerts_sent : ℕ

-- What the outside does with a message: a fresh id, whether the audit row was written, and whether
-- Telegram took the alert.
pub record Outside : Type 0 where
  pub fresh_id : String
  pub audited : Bool
  pub delivered : Bool

pub record Message : Type 0 where
  pub stream : String
  pub message_id : MessageId
  pub fields : Dict String

module _ {F : Type 0} where
  -- `record`: a database error is logged and forgotten.
  pub record_event : Bool → Event F → LifecycleLogger F → LifecycleLogger F
  record_event audited e l =
      if audited
      then record l { audit_log = l.audit_log ++ (e ∷ []); recorded = l.recorded + 1 }
      else l

  abbrev pub announce : Outside → String → NotifyConsumer F → NotifyConsumer F
  announce outside message s =
      let (taken, sender) = send outside.delivered message s.sender in
      record s { sender = sender; alerts_sent = if taken then s.alerts_sent + 1 else s.alerts_sent }

  abbrev pub audit : Outside → Event F → NotifyConsumer F → NotifyConsumer F
  audit outside e s = record s { lifecycle = record_event outside.audited e s.lifecycle }

  -- `decoded.get(k)` in a payload
  abbrev pub get_json : String → Dict String → JsonValue F
  get_json k decoded = elim (lookup k decoded) [ some s ↦ text s | none ↦ null ]

  abbrev pub get_parsed : String → Dict (JsonValue F) → JsonValue F
  get_parsed k parsed = elim (lookup k parsed) [ some v ↦ v | none ↦ null ]

-- `decoded.get("signal_id") or decoded.get("idempotency_key") or message_id.decode()`
unfoldable pub subject_of : Dict String → MessageId → Result String
subject_of decoded id = elim (get_text "signal_id" decoded) [
  | some s ↦ ok s
  | none ↦ elim (get_text "idempotency_key" decoded) [ some s ↦ ok s | none ↦ decode id ]
]

-- `decoded.get("idempotency_key", subject)`
abbrev pub order_subject : Dict String → String → String
order_subject decoded subject = elim (lookup "idempotency_key" decoded) [
  | some key ↦ key
  | none ↦ subject
]

module _ {F : Type 0} ⦃j : JsonLib F⦄ where
  abbrev pub signal_view : Dict String → Dict (JsonValue F) → Dict (JsonValue F)
  signal_view decoded parsed = merge (texts decoded) (
      ("direction", get_parsed "direction" parsed)
      ∷ ("symbol", get_parsed "symbol" parsed)
      ∷ ("entry", get_parsed "entry" parsed)
      ∷ ("sl", get_parsed "sl" parsed)
      ∷ ("tp1", get_parsed "tp1" parsed)
      ∷ ("tp2", get_parsed "tp2" parsed)
      ∷ ("score", get_parsed "score" parsed)
      ∷ ("max_score", get_parsed "max_score" parsed)
      ∷ [])

  -- The payload of a signal's text: a document that is no object has no `get`.
  abbrev pub view_of : Dict String → Result (Dict (JsonValue F)) → Result (Dict (JsonValue F))
  view_of decoded (ok parsed) = ok (signal_view decoded parsed)
  view_of decoded (raise (value_error _)) = ok (texts decoded)
  view_of decoded (raise type_error) = raise attribute_error
  view_of decoded (raise e) = raise e

  unfoldable pub generated_payload : Dict String → Result (Dict (JsonValue F))
  generated_payload decoded = elim (get_text "signal" decoded) [
    | some blob ↦ view_of decoded (j.loads blob)
    | none ↦ ok (texts decoded)
  ]

module _ {F : Type 0} ⦃d : Float F⦄ ⦃j : JsonLib F⦄ (outside : Outside) where
  abbrev pub on_generated : Dict String → String → NotifyConsumer F → Result (NotifyConsumer F)
  on_generated decoded subject s = generated_payload {F = F} decoded >>= λ payload. ok (
      announce outside (format_generated payload) (
        audit outside
          (record {
            event = "signal.generated";
            subject = subject;
            outcome = "ok";
            payload =
                ("correlation_id", text (get_or_create_correlation_id outside.fresh_id decoded))
                ∷ [];
          })
          s))

  abbrev pub on_signal_rejected : Dict String → String → NotifyConsumer F → NotifyConsumer F
  on_signal_rejected decoded subject s =
      let recorded =
        audit outside
          (record {
            event = "signal.rejected";
            subject = subject;
            outcome = "rejected";
            payload = ("rejected_reason", get_json "rejected_reason" decoded) ∷ [];
          })
          s in
      if s.alert_rejections
      then announce outside (format_rejected {F = F} (texts decoded)) recorded
      else recorded

  abbrev pub on_filled : Dict String → String → NotifyConsumer F → NotifyConsumer F
  on_filled decoded subject s = announce outside (format_filled {F = F} (texts decoded)) (
      audit outside
        (record {
          event = "order.filled";
          subject = order_subject decoded subject;
          outcome = "ok";
          payload = ("ticket", get_json "ticket" decoded) ∷ [];
        })
        s)

  abbrev pub on_order_rejected : Dict String → String → NotifyConsumer F → NotifyConsumer F
  on_order_rejected decoded subject s = announce outside (format_rejected {F = F} (texts decoded)) (
      audit outside
        (record {
          event = "order.rejected";
          subject = order_subject decoded subject;
          outcome = "error";
          payload =
              ("rejected_reason", get_json "rejected_reason" decoded)
              ∷ ("detail", get_json "detail" decoded)
              ∷ [];
        })
        s)

  abbrev pub on_closed : Dict String → String → NotifyConsumer F → NotifyConsumer F
  on_closed decoded subject s = announce outside (format_closed {F = F} (texts decoded)) (
      audit outside
        (record {
          event = "order.closed";
          subject = order_subject decoded subject;
          outcome = "ok";
          payload = ("pnl", get_json "pnl" decoded) ∷ ("ticket", get_json "ticket" decoded) ∷ [];
        })
        s)

  unfoldable pub dispatch :
      String → Dict String → String → NotifyConsumer F → Result (NotifyConsumer F)
  dispatch stream decoded subject s =
      if text_eq stream "signal.generated"
      then on_generated decoded subject s
      else if text_eq stream "signal.rejected"
      then ok (on_signal_rejected decoded subject s)
      else if text_eq stream "order.filled"
      then ok (on_filled decoded subject s)
      else if text_eq stream "order.rejected"
      then ok (on_order_rejected decoded subject s)
      else if text_eq stream "order.closed"
      then ok (on_closed decoded subject s)
      else ok s

  -- `_handle`. Nothing is written before an exception, so a message that raises leaves the state.
  unfoldable pub handle : Message → NotifyConsumer F → Result (NotifyConsumer F)
  handle message s = subject_of message.fields message.message_id >>= λ subject.
      dispatch message.stream message.fields subject s >>= λ s'.
      ok (record s' { processed = s'.processed + 1 })

-- The loop of `drain` over one batch, each message with what the outside does with it: the state, the
-- number of messages acknowledged, and the exception that ended the batch, if one did.
module _ {F : Type 0} ⦃d : Float F⦄ ⦃j : JsonLib F⦄ where
  unfoldable pub handle_all :
      List (Outside × Message) → NotifyConsumer F → NotifyConsumer F × ℕ × Result (Unit {0})
  handle_all [] s = (s, 0, ok tt)
  handle_all ((outside, message) ∷ messages) s = elim (handle outside message s) [
    | raise e ↦ (s, 0, raise e)
    | ok s' ↦ let rest = handle_all messages s' in (rest.0, rest.1 + 1, rest.2)
  ]
