-- ===== src/SignalService/Consumer/Handover.antt =====
-- What the other services make of an entry of services/signal-service/app/consumer.py.
use vix_75_platform.Base.{String, ◌≡◌, refl, false, none, some}
use vix_75_platform.Base.Dict.{text_eq}
use vix_75_platform.Base.Result.{ok, raise, attribute_error}
use vix_75_platform.Correlation.{
  get_or_create_correlation_id, get_text, stream_fields, correlation_roundtrip,
}
use vix_75_platform.Float.{Float}
use vix_75_platform.Json.{JsonLib}
use vix_75_platform.Schemas.{Signal}
use vix_75_platform.RiskService.Handler.{RiskEnv, read_signal}
use vix_75_platform.SignalService.Consumer.{SignalEnv, signal_entry}
use vix_75_platform.NotifyService.Consumer.{NotifyConsumer, Outside, Message, str}
use vix_75_platform.NotifyService.Consumer
use vix_75_platform.NotifyService.Consumer.Trail.{handle_raises}

module _ {F : Type 0} (env : SignalEnv F) (cid : String) (signal : Signal F) where
  read_dump :
      (risk : RiskEnv F)
      → risk.parse_signal (env.dump_signal signal) ≡ ok (some signal)
      → read_signal risk (signal_entry env cid signal) ≡ ok (some signal)
  unfolding read_signal signal_entry stream_fields text_eq
  read_dump risk hp = rw hp refl

  -- If the parser reads back the text that was written for a signal, the risk service reads from
  -- the entry of the signal service the signal and the correlation id, which is not empty, that
  -- were sent.
  pub read_signal-signal_entry :
      (risk : RiskEnv F) (fresh : String)
      → text_eq cid "" ≡ false
      → risk.parse_signal (env.dump_signal signal) ≡ ok (some signal)
      → (read_signal risk (signal_entry env cid signal) ≡ ok (some signal))
        × (get_or_create_correlation_id fresh (signal_entry env cid signal) ≡ cid)
  unfolding read_signal signal_entry
  read_signal-signal_entry risk fresh hc hp =
      (read_dump risk hp, correlation_roundtrip env.fresh_id fresh cid _ hc)

  get_text-signal_entry :
      (get_text "signal_id" (signal_entry env cid signal) ≡ none)
      × (get_text "idempotency_key" (signal_entry env cid signal) ≡ none)
  unfolding signal_entry stream_fields text_eq
  get_text-signal_entry = (refl, refl)

  -- An entry of the signal service that reaches the notify service with a text as its id makes its
  -- handler raise an AttributeError.
  pub handle-signal_entry :
      ⦃d : Float F⦄ ⦃j : JsonLib F⦄ (outside : Outside) (id : String) (s : NotifyConsumer F)
      → Consumer.handle outside
          (record {
            stream = "signal.generated";
            message_id = str id;
            fields = signal_entry env cid signal;
          })
          s
        ≡ raise attribute_error
  handle-signal_entry outside id s =
      handle_raises outside _ id s get_text-signal_entry.0 get_text-signal_entry.1 refl
