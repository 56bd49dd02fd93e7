-- ===== src/Logging/Redaction.antt =====
-- What the scrubbing of packages/vix_core/vix_core/logging.py leaves in an event.
use vix_75_platform.Base.{
  ◌≡◌, ◌∙◌, refl, ap, String, Bool, true, false, List, [], ◌∷◌, if◌then◌else◌,
}
use vix_75_platform.Logging.{
  Value, text, other, mapping, sequence, Fields, no_field, field, Values, no_value, value, redacted,
  is_sensitive, redact_keys, redact_value, redact_fields, redact_values, redact_event_dict,
}

-- Under a sensitive key, at any depth, stands the mark; every other text went through the substitution.
mutual
  pub data Scrubbed (redact_text : String → String) : Value → Type 0 where
    from_text : (s : String) → Scrubbed redact_text (text (redact_text s))
    not_text : (b : Bool) → Scrubbed redact_text (other b)
    in_mapping :
        {fields : Fields}
        → ScrubbedFields redact_text fields
        → Scrubbed redact_text (mapping fields)
    in_sequence :
        {values : Values}
        → ScrubbedValues redact_text values
        → Scrubbed redact_text (sequence values)

  pub data ScrubbedFields (redact_text : String → String) : Fields → Type 0 where
    end : ScrubbedFields redact_text no_field
    secret :
        (k : String) {fields : Fields}
        → is_sensitive k ≡ true
        → ScrubbedFields redact_text fields
        → ScrubbedFields redact_text (field k (text redacted) fields)
    plain :
        (k : String) {v : Value} {fields : Fields}
        → is_sensitive k ≡ false
        → Scrubbed redact_text v
        → ScrubbedFields redact_text fields
        → ScrubbedFields redact_text (field k v fields)

  pub data ScrubbedValues (redact_text : String → String) : Values → Type 0 where
    stop : ScrubbedValues redact_text no_value
    next :
        {v : Value} {values : Values}
        → Scrubbed redact_text v
        → ScrubbedValues redact_text values
        → ScrubbedValues redact_text (value v values)

abbrev pub keys : Fields → List String
keys no_field = []
keys (field k v fields) = k ∷ keys fields

keys-redact_keys : (fields : Fields) → keys (redact_keys fields) ≡ keys fields
unfolding redact_keys
keys-redact_keys no_field = refl
keys-redact_keys (field k v fields) = ap (λ ks. k ∷ ks) (keys-redact_keys fields)

module _ (redact_text : String → String) where
  if-ScrubbedFields :
      (b : Bool) (k : String) (v : Value) (fields : Fields)
      → is_sensitive k ≡ b
      → Scrubbed redact_text v
      → ScrubbedFields redact_text fields
      → ScrubbedFields redact_text (field k (if b then text redacted else v) fields)
  if-ScrubbedFields true k v fields e s f = secret k e f
  if-ScrubbedFields false k v fields e s f = plain k e s f

  mutual
    unfolding redact_value

    redact_value-Scrubbed : (v : Value) → Scrubbed redact_text (redact_value redact_text v)
    redact_value-Scrubbed (text s) = from_text s
    redact_value-Scrubbed (other b) = not_text b
    redact_value-Scrubbed (mapping fields) = in_mapping (redact_fields-Scrubbed fields)
    redact_value-Scrubbed (sequence values) = in_sequence (redact_values-Scrubbed values)

    redact_fields-Scrubbed :
        (fields : Fields) → ScrubbedFields redact_text (redact_fields redact_text fields)
    redact_fields-Scrubbed no_field = end
    redact_fields-Scrubbed (field k v fields) =
        if-ScrubbedFields (is_sensitive k) k _ _ refl (redact_value-Scrubbed v)
          (redact_fields-Scrubbed fields)

    redact_values-Scrubbed :
        (values : Values) → ScrubbedValues redact_text (redact_values redact_text values)
    redact_values-Scrubbed no_value = stop
    redact_values-Scrubbed (value v values) =
        next (redact_value-Scrubbed v) (redact_values-Scrubbed values)

  keys-redact_fields : (fields : Fields) → keys (redact_fields redact_text fields) ≡ keys fields
  unfolding redact_fields
  keys-redact_fields no_field = refl
  keys-redact_fields (field k v fields) = ap (λ ks. k ∷ ks) (keys-redact_fields fields)

  -- Whatever the substitution in free text is, an event that was scrubbed holds, at any depth,
  -- under a sensitive key only the mark that replaces a secret, every other text in it went
  -- through the substitution, and the keys of the event itself are those it had.
  pub redact_event_dict-Scrubbed :
      (event : Fields)
      → ScrubbedFields redact_text (redact_event_dict redact_text event)
        × (keys (redact_event_dict redact_text event) ≡ keys event)
  unfolding redact_event_dict
  redact_event_dict-Scrubbed event = (
    redact_fields-Scrubbed (redact_keys event),
    keys-redact_fields (redact_keys event) ∙ keys-redact_keys event,
  )
