-- ===== src/Correlation.antt =====
-- packages/vix_core/vix_core/correlation.py. A fresh id is an argument: `uuid4().hex`. Binding the id
-- to the log context has no other effect, and is left out.
use vix_75_platform.Base.{String, ◌≡◌, false, Option, none, some, if◌then◌else◌, arith}
use vix_75_platform.Base.Dict.{Dict, lookup, insert, text_eq, lookup-insert_self}

abbrev pub correlation_field : String
correlation_field = "correlation_id"

abbrev pub correlation_header : String
correlation_header = "X-Correlation-Id"

-- `d.get(k)` as a condition: an empty text counts as missing.
abbrev pub get_text : String → Dict String → Option String
get_text k d = elim (lookup k d) [ none ↦ none | some v ↦ if text_eq v "" then none else some v ]

unfoldable pub get_or_create_correlation_id : String → Dict String → String
get_or_create_correlation_id fresh payload = elim (get_text correlation_field payload) [
  | some cid ↦ cid
  | none ↦ elim (get_text correlation_header payload) [ some cid ↦ cid | none ↦ fresh ]
]

-- The fields of a stream entry; the values are texts already.
unfoldable pub stream_fields : String → Dict String → Option String → Dict String
stream_fields fresh payload correlation_id =
    let cid : String = elim correlation_id [
      | some c ↦ if text_eq c "" then fresh else c
      | none ↦ fresh
    ] in
    insert correlation_field cid payload

-- An id that a service puts on an entry is the one that the next service reads.
pub correlation_roundtrip :
    (fresh fresh' cid : String) (payload : Dict String)
    → text_eq cid "" ≡ false
    → get_or_create_correlation_id fresh' (stream_fields fresh payload (some cid)) ≡ cid
unfolding get_or_create_correlation_id stream_fields
correlation_roundtrip fresh fresh' cid payload h =
    ground (arith, lookup-insert_self correlation_field cid payload)
