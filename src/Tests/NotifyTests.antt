-- ===== src/Tests/NotifyTests.antt =====
-- The notify service on a fill, a closed trade and a signal.
use vix_75_platform.Base.{◌≡◌, refl, String, true, false, [], ◌∷◌, ◌+◌, format}
use vix_75_platform.Base.Dict.{Dict, text_eq}
use vix_75_platform.Base.Int.{ℤ}
use vix_75_platform.Base.Result.{ok, raise, type_error}
use vix_75_platform.Json.{JsonLib}
use vix_75_platform.NotifyService.Telegram.{
  texts, format_closed, closed_parts, configured, send, is_digits,
}
use vix_75_platform.NotifyService.Consumer.{
  NotifyConsumer, Outside, Message, bytes, on_closed, subject_of, dispatch, handle,
}
use vix_75_platform.NotifyService.Consumer.Trail.{IsRecorded, handle-IsRecorded}
use vix_75_platform.NotifyService.Telegram.Closed.{format_closed-texts}
use vix_75_platform.Tests.Decimal.{decimal}

instance abbrev no_documents : JsonLib ℤ
no_documents = record {
  dumps = λ _. "";
  loads = λ _. raise type_error;
  parse_float = λ _. raise type_error;
  parse_int = λ _. raise type_error;
  trunc = λ x. x;
}

abbrev outside : Outside
outside = record { fresh_id = "c"; audited = true; delivered = true }

abbrev start : NotifyConsumer ℤ
start = record {
  alert_rejections = false;
  lifecycle = record { audit_log = []; recorded = 0 };
  sender = record { token = "t"; chat_id = "75"; sent = 0; failed = 0 };
  processed = 0;
  alerts_sent = 0;
}

abbrev closed_fields : Dict String
closed_fields = ("idempotency_key", "k1") ∷ ("pnl", "12.5") ∷ []

abbrev closed_message : Message
closed_message = record {
  stream = "order.closed";
  message_id = bytes "1-0";
  fields = closed_fields;
}

abbrev announced : NotifyConsumer ℤ
announced =
    let s = on_closed outside closed_fields "k1" start in record s { processed = s.processed + 1 }

runs : handle outside closed_message start ≡ ok announced
unfolding handle dispatch subject_of text_eq
runs = refl

one_alert : announced.alerts_sent ≡ 1
unfolding send configured is_digits text_eq
one_alert = refl

handle-IsRecorded_example : IsRecorded 1 "order.closed" start announced
unfolding text_eq
handle-IsRecorded_example = handle-IsRecorded outside closed_message start announced refl refl runs

format_closed-texts_example :
    format_closed {F = ℤ} (texts closed_fields)
    ≡ format (
        "🔵 <b>TRADE CLOSED</b> "
        ∷ "📉"
        ∷ "\nPnL: "
        ∷ "12.5"
        ∷ closed_parts {F = ℤ} (texts closed_fields))
unfolding text_eq
format_closed-texts_example = format_closed-texts ℤ "12.5" closed_fields refl
