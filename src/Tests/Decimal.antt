-- ===== src/Tests/Decimal.antt =====
-- The interface `Float` at a concrete type: decimals with two places, as hundredths. Its texts are
-- not those of Python, which no test reads.
use vix_75_platform.Base.{ℕ, suc, ◌+◌, ◌*◌, ◌/◌, ◌^◌, arith}
use vix_75_platform.Base.Int.{ℤ, pos, negsuc, pos_part, neg_part, sub_ℕ, ◌+ℤ◌, ◌-ℤ◌, ltb_ℤ, leb_ℤ}
use vix_75_platform.Float.{Float, IsOrdered}

-- The quotient by a positive number, towards zero.
abbrev over : ℤ → ℕ → ℤ
over (pos a) n = pos (a / n)
over (negsuc a) n = sub_ℕ 0 (suc a / n)

abbrev times : ℤ → ℤ → ℤ
times a b =
    sub_ℕ ((pos_part a * pos_part b + neg_part a * neg_part b) / 100)
      ((pos_part a * neg_part b + neg_part a * pos_part b) / 100)

abbrev floored : ℤ → ℤ
floored (pos a) = pos (a / 100 * 100)
floored (negsuc a) = sub_ℕ 0 ((suc a + 99) / 100 * 100)

abbrev scaled : ℤ → ℤ
scaled a = sub_ℕ (pos_part a * 100) (neg_part a * 100)

instance abbrev pub decimal : Float ℤ
decimal = record {
  lit = λ m k. pos (m * 100 / 10 ^ k);
  of_int = scaled;
  infinity = pos (10 ^ 18);
  add = ◌+ℤ◌;
  sub = ◌-ℤ◌;
  mul = times;
  div = λ a b. over (scaled a) (pos_part b);
  abs = λ a. pos (pos_part a + neg_part a);
  lt = ltb_ℤ;
  le = leb_ℤ;
  round = λ a _. a;
  floor = floored;
  show = λ _. "";
  show_int = λ _. "";
  show_fixed = λ _ _. "";
}

pub decimal-IsOrdered : IsOrdered ℤ
decimal-IsOrdered = ground arith
