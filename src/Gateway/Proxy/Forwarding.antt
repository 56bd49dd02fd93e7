-- ===== src/Gateway/Proxy/Forwarding.antt =====
-- The headers that services/api-gateway/app/proxy.py passes on.
use vix_75_platform.Base.{
  same_name, ◌≡◌, ◌≢◌, ◌∙◌, refl, ap, subst, String, Bool, true, false, ◌||◌, List, [], ◌∷◌, arith,
  Option, none, some, inl, inr, Bool-cases, if◌then◌else◌,
}
use vix_75_platform.Base.Dict.{
  Dict, lookup, insert, text_eq, text_eq_iff, lookup-insert_self, lookup-insert_ne,
}
use vix_75_platform.Correlation.{correlation_header}
use vix_75_platform.Gateway.Proxy.{is_hop, keep_safe, safe_headers, without_name, forward_headers}

-- The values of a name in any case.
abbrev pub values_of : String → Dict String → List String
values_of name [] = []
values_of name ((k, v) ∷ headers) =
    if same_name k name then v ∷ values_of name headers else values_of name headers

abbrev pub any_hop : Dict String → Bool
any_hop [] = false
any_hop ((k, v) ∷ headers) = is_hop k || any_hop headers

-- The value that a name has last.
abbrev pub last_value : String → Dict String → Option String
last_value k [] = none
last_value k ((i, v) ∷ headers) = elim (last_value k headers) [
  | some w ↦ some w
  | none ↦ if text_eq i k then some v else none
]

-- One correlation id, no header of the connection, and every other header with its last value.
pub record IsClean (cid : String) (headers forwarded : Dict String) : Type 0 where
  pub correlation : values_of correlation_header forwarded ≡ cid ∷ []
  pub no_hop : any_hop forwarded ≡ false
  pub kept :
      (k : String)
      → is_hop k ≡ false
      → same_name k correlation_header ≡ false
      → lookup k forwarded ≡ last_value k headers

header-same : same_name correlation_header correlation_header ≡ true
unfolding same_name
header-same = refl

header-is_hop : is_hop correlation_header ≡ false
unfolding is_hop same_name
header-is_hop = refl

same_header :
    (k : String) → text_eq k correlation_header ≡ true → same_name k correlation_header ≡ true
same_header k h = let e = (text_eq_iff k correlation_header).0 h in rw e header-same

other_header : (k : String) → same_name k correlation_header ≡ false → k ≢ correlation_header
other_header k h e =
    let same = subst (λ x. same_name x correlation_header ≡ false) e h in let k = header-same in cc

same_lookup : (i k : String) → text_eq i k ≡ true → is_hop i ≡ is_hop k
same_lookup i k h = ap is_hop ((text_eq_iff i k).0 h)

same_lookup' :
    (i k : String)
    → text_eq i k ≡ true
    → same_name i correlation_header ≡ same_name k correlation_header
same_lookup' i k h = ap (λ x. same_name x correlation_header) ((text_eq_iff i k).0 h)

any_hop-insert :
    (k v : String) (headers : Dict String)
    → is_hop k ≡ false
    → any_hop headers ≡ false
    → any_hop (insert k v headers) ≡ false
any_hop-insert k v [] e h = ground (arith, e)
any_hop-insert k v ((i, w) ∷ headers) e h = ground (arith, any_hop-insert k v headers)

any_hop-keep_safe :
    (headers kept : Dict String) → any_hop kept ≡ false → any_hop (keep_safe headers kept) ≡ false
any_hop-keep_safe [] kept h = h
any_hop-keep_safe ((k, v) ∷ headers) kept h = elim (Bool-cases (is_hop k)) [
  | inl e ↦ rw e (any_hop-keep_safe headers kept h)
  | inr e ↦ rw e (any_hop-keep_safe headers (insert k v kept) (any_hop-insert k v kept e h))
]

any_hop-without_name :
    (name : String) (headers : Dict String)
    → any_hop headers ≡ false
    → any_hop (without_name name headers) ≡ false
any_hop-without_name name [] h = refl
any_hop-without_name name ((k, v) ∷ headers) h = ground (arith, any_hop-without_name name headers)

values_of-without_name :
    (name : String) (headers : Dict String) → values_of name (without_name name headers) ≡ []
values_of-without_name name [] = refl
values_of-without_name name ((k, v) ∷ headers) = ground (arith, values_of-without_name name headers)

values_of-insert :
    (cid : String) (headers : Dict String)
    → values_of correlation_header headers ≡ []
    → values_of correlation_header (insert correlation_header cid headers) ≡ cid ∷ []
values_of-insert cid [] h = rw header-same refl
values_of-insert cid ((k, v) ∷ headers) h =
    ground (arith, values_of-insert cid headers, same_header k)

-- The last value in the headers, or else the one kept before.
abbrev last_or : Option String → Option String → Option String
last_or none kept = kept
last_or (some v) kept = some v

last_or-none : (o : Option String) → last_or o none ≡ o
last_or-none none = refl
last_or-none (some v) = refl

last_or-insert :
    (i k v : String) (headers kept : Dict String)
    → last_or (last_value k headers) (lookup k (insert i v kept))
      ≡ last_or (last_value k ((i, v) ∷ headers)) (lookup k kept)
last_or-insert i k v headers kept =
    ground (arith, text_eq_iff i k, lookup-insert_self k v kept, lookup-insert_ne k i v kept)

hop_skipped :
    (i k v : String) (headers kept : Dict String)
    → is_hop i ≡ true
    → is_hop k ≡ false
    → last_or (last_value k headers) (lookup k kept)
      ≡ last_or (last_value k ((i, v) ∷ headers)) (lookup k kept)
hop_skipped i k v headers kept e h = ground (arith, same_lookup i k)

lookup-keep_safe :
    (k : String) (headers kept : Dict String)
    → is_hop k ≡ false
    → lookup k (keep_safe headers kept) ≡ last_or (last_value k headers) (lookup k kept)
lookup-keep_safe k [] kept h = refl
lookup-keep_safe k ((i, v) ∷ headers) kept h = elim (Bool-cases (is_hop i)) [
  | inl e ↦ rw e (lookup-keep_safe k headers kept h ∙ hop_skipped i k v headers kept e h)
  | inr e ↦
      rw e (lookup-keep_safe k headers (insert i v kept) h ∙ last_or-insert i k v headers kept)
]

lookup-without_name :
    (k : String) (headers : Dict String)
    → same_name k correlation_header ≡ false
    → lookup k (without_name correlation_header headers) ≡ lookup k headers
lookup-without_name k [] h = refl
lookup-without_name k ((i, v) ∷ headers) h =
    ground (arith, lookup-without_name k headers h, same_lookup' i k)

-- The headers passed on to a service have exactly one correlation id, in any case, which is the
-- given one, and no hop-by-hop header, and of every other name the last value that came.
pub forward_headers-IsClean :
    (cid : String) (headers : Dict String) → IsClean cid headers (forward_headers cid headers)
unfolding forward_headers
forward_headers-IsClean cid headers =
    let safe = safe_headers headers in
    let bare = without_name correlation_header safe in
    record {
      correlation = values_of-insert cid bare (values_of-without_name correlation_header safe);
      no_hop =
          any_hop-insert correlation_header cid bare header-is_hop
            (any_hop-without_name correlation_header safe (any_hop-keep_safe headers [] refl));
      kept = λ k h e.
          lookup-insert_ne k correlation_header cid bare (other_header k e)
          ∙ lookup-without_name k safe e
          ∙ lookup-keep_safe k headers [] h
          ∙ last_or-none (last_value k headers);
    }
