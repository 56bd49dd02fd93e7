-- ===== src/Base/Result.antt =====
-- Python's exceptions as values, and the monad of code that may raise.
use Prim.Native.String.{String}
use mathlib.Core.Logic.{◌⊎◌, inl, inr}
use mathlib.Core.Option.{Option, none, some}
use mathlib.Core.Path.{◌≡◌, refl}

pub data Exception : Type 0 where
  value_error : String → Exception
  runtime_error : String → Exception
  key_error : String → Exception
  type_error assertion_error attribute_error overflow_error : Exception
  -- Not an exception of the code: a loop that the model runs on fuel ran out of it.
  out_of_fuel : Exception

pub data Result {ℓ} (A : Type ℓ) : Type ℓ where
  raise : Exception → Result A
  ok : A → Result A

-- An exception skips the rest. `abbrev`, so that a chain computes as far as its calls do.
infixl 5 ◌>>=◌
abbrev pub ◌>>=◌ {ℓ κ} : {A : Type ℓ} {B : Type κ} → Result A → (A → Result B) → Result B
raise e >>= next = raise e
ok a >>= next = next a

-- A chain that returns has returned from its first call.
pub bind-eq-ok {ℓ κ} :
    {A : Type ℓ} {B : Type κ} (m : Result A) (next : A → Result B) {b : B}
    → m >>= next ≡ ok b
    → (a : A) × (m ≡ ok a) × (next a ≡ ok b)
bind-eq-ok (raise e) next h = cc
bind-eq-ok (ok a) next h = (a, refl, h)

-- `except (KeyError, TypeError, ValueError): return None`
abbrev pub none_on_lookup_error {ℓ} : {A : Type ℓ} → Result A → Result (Option A)
none_on_lookup_error (ok a) = ok (some a)
none_on_lookup_error (raise (value_error _)) = ok none
none_on_lookup_error (raise (key_error _)) = ok none
none_on_lookup_error (raise type_error) = ok none
none_on_lookup_error (raise e) = raise e

pub Result-cases {ℓ} :
    {A : Type ℓ} (m : Result A) → ((a : A) × (m ≡ ok a)) ⊎ ((e : Exception) × (m ≡ raise e))
Result-cases (ok a) = inl (a, refl)
Result-cases (raise e) = inr (e, refl)
