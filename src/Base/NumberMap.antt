-- ===== src/Base/NumberMap.antt =====
-- A Python dict by number whose keys are visited by `sorted`: it is kept in their order.
use Prim.Native.Nat.{ℕ}
use mathlib.Core.Path.{◌≡◌, refl}
use mathlib.Core.Bool.{Bool, true, false, not, ◌&&◌, ◌||◌}
use mathlib.Core.List.{List, [], ◌∷◌}
use native.Mathlib.Omega.{arith}
use vix_75_platform.Base.Tests.{ltb, ◌==◌, ==_iff, if◌then◌else◌}

abbrev pub NumberMap {ℓ} : Type ℓ → Type ℓ
NumberMap V = List (ℕ × V)

module _ {ℓ} {V : Type ℓ} where
  -- `d[k] = v`
  abbrev pub put : ℕ → V → NumberMap V → NumberMap V
  put t v [] = (t, v) ∷ []
  put t v ((u, w) ∷ m) =
      if t == u then (t, v) ∷ m else if ltb t u then (t, v) ∷ (u, w) ∷ m else (u, w) ∷ put t v m

  -- `k in d`
  abbrev pub has : ℕ → NumberMap V → Bool
  has t [] = false
  has t ((u, w) ∷ m) = u == t || has t m

  pub has-put : (u t : ℕ) (v : V) (m : NumberMap V) → has u (put t v m) ≡ ((t == u) || has u m)
  has-put u t v [] = refl
  has-put u t v ((i, w) ∷ m) = ground (arith, has-put u t v m)

  has_same : (u t : ℕ) (n : NumberMap V) → (t == u) ≡ true → has t n ≡ has u n
  has_same u t n h = let e = (==_iff t u).0 h in cc

module _ {ℓ κ} {V : Type ℓ} {W : Type κ} where
  -- The entries of one dict whose keys another has not.
  abbrev pub minus : NumberMap V → NumberMap W → NumberMap V
  minus [] n = []
  minus ((t, v) ∷ m) n = if has t n then minus m n else (t, v) ∷ minus m n

  pub has-minus :
      (u : ℕ) (m : NumberMap V) (n : NumberMap W) → has u (minus m n) ≡ (has u m && not (has u n))
  has-minus u [] n = refl
  has-minus u ((t, v) ∷ m) n = ground (arith, has-minus u m n, has_same u t n)
