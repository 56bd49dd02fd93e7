-- ===== src/Tests/LoggingTests.antt =====
-- An event with a secret at the top, one in a list of mappings, and free text.
use vix_75_platform.Base.{◌≡◌, refl, String, true, same_name}
use vix_75_platform.Base.Dict.{text_eq}
use vix_75_platform.Logging.{
  text, other, mapping, sequence, Fields, no_field, field, no_value, value, is_sensitive,
  redact_keys, redact_value, redact_event_dict, add_correlation_id,
}
use vix_75_platform.Logging.Redaction.{ScrubbedFields, keys, redact_event_dict-Scrubbed}

abbrev redact_text : String → String
redact_text s = "text"

abbrev inner : Fields
inner = field "Token" (text "t0") (field "lots" (other true) no_field)

abbrev event : Fields
event = field "event" (text "login=75") (
    field "PASSWORD" (text "p")
      (field "orders" (sequence (value (mapping inner) no_value)) no_field))

redacted_event :
    redact_event_dict redact_text event
    ≡ field "event" (text "text") (
        field "PASSWORD" (text "[REDACTED]") (
          field "orders"
            (sequence (
              value
                (mapping (field "Token" (text "[REDACTED]") (field "lots" (other true) no_field)))
                no_value))
            no_field))
unfolding redact_event_dict redact_keys redact_value is_sensitive same_name
redacted_event = refl

with_id :
    add_correlation_id (field "X-Correlation-Id" (text "m") no_field)
    ≡ field "X-Correlation-Id" (text "m") (field "correlation_id" (text "m") no_field)
unfolding add_correlation_id text_eq
with_id = refl

redact_event_dict-Scrubbed_example :
    ScrubbedFields redact_text (redact_event_dict redact_text event)
    × (keys (redact_event_dict redact_text event) ≡ keys event)
redact_event_dict-Scrubbed_example = redact_event_dict-Scrubbed redact_text event
