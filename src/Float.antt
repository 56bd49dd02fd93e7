-- ===== src/Float.antt =====
-- Python's `float`, as far as the services use it. The code relies on IEEE doubles, which are not
-- code of the repository, so the type and its operations are an interface. Its values are the
-- doubles other than NaN: the order is total on them. The laws say nothing of rounding errors.
use vix_75_platform.Base.Int.{ℤ}
use vix_75_platform.Base.{ℕ, String, ◌≡◌, ◌⊎◌, Bool, true, false, not, arith, if◌then◌else◌}

pub record Float (F : Type 0) : Type 0 where
  -- `lit m k` is the decimal literal m / 10 ^ k.
  pub lit : ℕ → ℕ → F
  -- `float(n)`
  pub of_int : ℤ → F
  pub infinity : F
  pub add : F → F → F
  pub sub : F → F → F
  pub mul : F → F → F
  -- The code divides by positive numbers only; Python raises on a zero divisor.
  pub div : F → F → F
  pub abs : F → F
  pub lt : F → F → Bool
  pub le : F → F → Bool
  -- `round(x, k)` and `math.floor(x)`, the latter as a float and of finite numbers only.
  pub round : F → ℕ → F
  pub floor : F → F
  -- `str(x)` and `f"{x:.kf}"`.
  pub show : F → String
  -- `str(n)`
  pub show_int : ℤ → String
  pub show_fixed : ℕ → F → String

-- The order of the doubles other than NaN.
pub record IsOrdered (F : Type 0) ⦃d : Float F⦄ : Type 0 where
  pub le_trans : (x y z : F) → d.le x y ≡ true → d.le y z ≡ true → d.le x z ≡ true
  pub le_total : (x y : F) → (d.le x y ≡ true) ⊎ (d.le y x ≡ true)
  pub lt-eq-not-le : (x y : F) → d.lt x y ≡ not (d.le y x)

module _ {F : Type 0} ⦃d : Float F⦄ where
  abbrev pub nought : F
  nought = d.lit 0 0

  -- `max(x, y)` and `min(x, y)` keep the first of two equal arguments.
  abbrev pub max : F → F → F
  max x y = if d.lt x y then y else x

  abbrev pub min : F → F → F
  min x y = if d.lt y x then y else x

  infix 50 ◌≼◌ ◌≺◌
  abbrev pub ◌≼◌ : F → F → Type 0
  x ≼ y = d.le x y ≡ true

  abbrev pub ◌≺◌ : F → F → Type 0
  x ≺ y = d.lt x y ≡ true

module _ {F : Type 0} ⦃d : Float F⦄ (o : IsOrdered F) where
  open o use {le_trans, le_total, lt-eq-not-le}

  pub le_refl : (x : F) → x ≼ x
  le_refl x = ground (arith, le_total x x)

  pub le_of_lt : (x y : F) → x ≺ y → x ≼ y
  le_of_lt x y h = ground (arith, lt-eq-not-le x y, le_total x y)

  pub le_of_not_lt : (x y : F) → d.lt x y ≡ false → y ≼ x
  le_of_not_lt x y h = ground (arith, lt-eq-not-le x y)

  pub not_le_of_lt : (x y : F) → x ≺ y → d.le y x ≡ false
  not_le_of_lt x y h = ground (arith, lt-eq-not-le x y)

  pub not_lt_of_le : (x y : F) → x ≼ y → d.lt y x ≡ false
  not_lt_of_le x y h = ground (arith, lt-eq-not-le y x)

  pub lt_of_lt_of_le : (x y z : F) → x ≺ y → y ≼ z → x ≺ z
  lt_of_lt_of_le x y z h k = ground (arith, lt-eq-not-le x z, lt-eq-not-le x y, le_trans y z x k)

  pub lt_of_le_of_lt : (x y z : F) → x ≼ y → y ≺ z → x ≺ z
  lt_of_le_of_lt x y z h k =
      ground (arith, lt-eq-not-le x z, lt-eq-not-le y z, λ (p : z ≼ x). le_trans z x y p h)

  pub le-max : (x y : F) → (x ≼ max x y) × (y ≼ max x y)
  le-max x y = ground (arith, le_refl x, le_refl y, le_of_lt x y, le_of_not_lt x y)

  pub min-le : (x y : F) → (min x y ≼ x) × (min x y ≼ y)
  min-le x y = ground (arith, le_refl x, le_refl y, le_of_lt y x, le_of_not_lt y x)
