-- ===== src/Logging.antt =====
-- packages/vix_core/vix_core/logging.py: the processors that add a correlation id to an event and scrub
-- it. Keys are ASCII texts, and the substitution in free text, which the regular expression decides, is
-- an argument.
pub mod Redaction
use vix_75_platform.Base.{
  String, Bool, true, false, not, Option, none, some, List, [], ◌∷◌, any, same_name, if◌then◌else◌,
}
use vix_75_platform.Base.Dict.{text_eq}

-- What an event may hold: a text, a mapping, a sequence (list, tuple or set), or another value, of which
-- only the truth is known.
mutual
  pub data Value : Type 0 where
    text : String → Value
    other : (truth : Bool) → Value
    mapping : Fields → Value
    sequence : Values → Value

  pub data Fields : Type 0 where
    no_field : Fields
    field : String → Value → Fields → Fields

  pub data Values : Type 0 where
    no_value : Values
    value : Value → Values → Values

abbrev pub redacted : String
redacted = "[REDACTED]"

abbrev pub correlation_key : String
correlation_key = "correlation_id"

abbrev pub sensitive_keys : List String
sensitive_keys =
    "mt5_login" ∷ "login" ∷ "account" ∷ "account_id" ∷ "balance" ∷ "equity" ∷ "password" ∷ "passwd"
    ∷ "pwd" ∷ "mt5_password" ∷ "token" ∷ "telegram_token" ∷ "deriv_api_token" ∷ "api_key" ∷ "secret"
    ∷ "jwt_secret" ∷ "authorization" ∷ []

-- `key.lower() in SENSITIVE_KEYS`
unfoldable pub is_sensitive : String → Bool
is_sensitive key = any (λ k. same_name key k) sensitive_keys

-- The first loop of `redact_event_dict`, over the keys of the event itself.
unfoldable pub redact_keys : Fields → Fields
redact_keys no_field = no_field
redact_keys (field k v fields) =
    field k (if is_sensitive k then text redacted else v) (redact_keys fields)

-- `_redact_value`
unfoldable mutual
  pub redact_value : (String → String) → Value → Value
  redact_value redact_text (text s) = text (redact_text s)
  redact_value redact_text (other b) = other b
  redact_value redact_text (mapping fields) = mapping (redact_fields redact_text fields)
  redact_value redact_text (sequence values) = sequence (redact_values redact_text values)

  pub redact_fields : (String → String) → Fields → Fields
  redact_fields redact_text no_field = no_field
  redact_fields redact_text (field k v fields) =
      let item = redact_value redact_text v in
      field k (if is_sensitive k then text redacted else item) (redact_fields redact_text fields)

  pub redact_values : (String → String) → Values → Values
  redact_values redact_text no_value = no_value
  redact_values redact_text (value v values) =
      value (redact_value redact_text v) (redact_values redact_text values)

unfoldable pub redact_event_dict : (String → String) → Fields → Fields
redact_event_dict redact_text event = redact_fields redact_text (redact_keys event)

abbrev pub find : String → Fields → Option Value
find key no_field = none
find key (field k v fields) = if text_eq k key then some v else find key fields

-- `bool(value)`
abbrev pub is_truthy : Value → Bool
is_truthy (text s) = not (text_eq s "")
is_truthy (other b) = b
is_truthy (mapping no_field) = false
is_truthy (mapping (field _ _ _)) = true
is_truthy (sequence no_value) = false
is_truthy (sequence (value _ _)) = true

-- `event_dict[k] = v` of a key that is not there
abbrev pub append : String → Value → Fields → Fields
append key v no_field = field key v no_field
append key v (field k w fields) = field k w (append key v fields)

abbrev pub candidates : List String
candidates = "correlation_id" ∷ "x_correlation_id" ∷ "X-Correlation-Id" ∷ []

abbrev pub taken : Option Value → Bool
taken none = false
taken (some v) = is_truthy v

abbrev pub add_from : List String → Fields → Fields
add_from [] event = event
add_from (candidate ∷ rest) event = elim (find candidate event) [
  | none ↦ add_from rest event
  | some v ↦ if is_truthy v then append correlation_key v event else add_from rest event
]

unfoldable pub add_correlation_id : Fields → Fields
add_correlation_id event = elim (find correlation_key event) [
  | some _ ↦ event
  | none ↦ add_from candidates event
]
