-- ===== src/Base/Dict.antt =====
-- A Python dict (or a Redis hash, or a table with a unique text key) in insertion order.
use text.Mathlib.Text.{◌==◌ as str_eq}
use text.Mathlib.TextEquality.{eq_iff}
use vix_75_platform.Base.Tests.{if◌then◌else◌}
use vix_75_platform.Base.Lists.{length}
use Prim.Native.Nat.{suc, ◌≤◌}
use Prim.Native.String.{String}
use mathlib.Core.Path.{◌≡◌, refl}
use mathlib.Core.Logic.{◌≢◌, ◌↔◌}
use mathlib.Core.Bool.{Bool, true}
use mathlib.Core.Option.{Option, none, some}
use mathlib.Core.List.{List, [], ◌∷◌}
use native.Mathlib.Omega.{arith}

-- Equality of texts. It is shut: proofs go through `text_eq_iff`.
unfoldable pub text_eq : String → String → Bool
text_eq = str_eq

pub text_eq_iff : (s t : String) → (text_eq s t ≡ true) ↔ (s ≡ t)
unfolding text_eq
text_eq_iff s t = eq_iff s t

pub text_eq_refl : (s : String) → text_eq s s ≡ true
text_eq_refl s = (text_eq_iff s s).1 refl

abbrev pub Dict {ℓ} : Type ℓ → Type ℓ
Dict V = List (String × V)

module _ {ℓ} {V : Type ℓ} where
  abbrev pub lookup : String → Dict V → Option V
  lookup k [] = none
  lookup k ((j, v) ∷ d) = if text_eq j k then some v else lookup k d

  -- `d[k] = v`
  abbrev pub insert : String → V → Dict V → Dict V
  insert k v [] = (k, v) ∷ []
  insert k v ((j, w) ∷ d) = if text_eq j k then (j, v) ∷ d else (j, w) ∷ insert k v d

  -- `d.pop(k, None)`
  abbrev pub erase : String → Dict V → Dict V
  erase k [] = []
  erase k ((j, w) ∷ d) = if text_eq j k then d else (j, w) ∷ erase k d

  -- `{**a, **b}`, and `a || b` of two JSON objects
  abbrev pub merge : Dict V → Dict V → Dict V
  merge a [] = a
  merge a ((k, v) ∷ b) = merge (insert k v a) b

  -- `d.values()`
  abbrev pub values : Dict V → List V
  values [] = []
  values ((_, v) ∷ d) = v ∷ values d

  pub lookup-insert_self : (k : String) (v : V) (d : Dict V) → lookup k (insert k v d) ≡ some v
  lookup-insert_self k v [] = ground (arith, text_eq_refl k)
  lookup-insert_self k v ((j, w) ∷ d) = ground (arith, lookup-insert_self k v d)

  pub lookup-insert_ne :
      (j k : String) (v : V) (d : Dict V) → j ≢ k → lookup j (insert k v d) ≡ lookup j d
  lookup-insert_ne j k v [] h = ground (arith, text_eq_iff k j)
  lookup-insert_ne j k v ((i, w) ∷ d) h =
      ground (arith, text_eq_iff i j, text_eq_iff i k, lookup-insert_ne j k v d h)

  pub lookup-erase_ne : (j k : String) (d : Dict V) → j ≢ k → lookup j (erase k d) ≡ lookup j d
  lookup-erase_ne j k [] h = refl
  lookup-erase_ne j k ((i, w) ∷ d) h =
      ground (arith, text_eq_iff i j, text_eq_iff i k, lookup-erase_ne j k d h)

  -- Writing a key that is not there adds one entry.
  pub length-insert_new :
      (k : String) (v : V) (d : Dict V) → lookup k d ≡ none → length (insert k v d) ≡ suc (length d)
  length-insert_new k v [] h = refl
  length-insert_new k v ((j, w) ∷ d) h = ground (arith, length-insert_new k v d)

  pub length-insert_le : (k : String) (v : V) (d : Dict V) → length d ≤ length (insert k v d)
  length-insert_le k v [] = omega arith
  length-insert_le k v ((j, w) ∷ d) = ground (arith, length-insert_le k v d)
