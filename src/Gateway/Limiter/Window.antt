-- ===== src/Gateway/Limiter/Window.antt =====
-- The sliding window of services/api-gateway/app/rate_limiter.py, over every sequence of requests of
-- one subject whose clock does not go back.
use vix_75_platform.Base.{
  ℕ, suc, ◌≤◌, ◌≡◌, refl, Bool, ◌&&◌, List, [], ◌∷◌, arith, leb, if◌then◌else◌, filter, length,
}
use vix_75_platform.Base.Int.{ℤ, pos, ◌≤ℤ◌, ltb_ℤ}
use vix_75_platform.Gateway.Limiter.{count_above}

-- A served request: its arrival and whether it was allowed. The newest comes first.
abbrev pub Log : Type 0
Log = List (ℕ × Bool)

-- The requests after `bound`, and the allowed ones of them up to `hi`.
abbrev pub requests_after : ℤ → Log → ℕ
requests_after bound [] = 0
requests_after bound ((t, _) ∷ log) =
    if ltb_ℤ bound (pos t) then suc (requests_after bound log) else requests_after bound log

abbrev pub allowed_within : ℤ → ℕ → Log → ℕ
allowed_within bound hi [] = 0
allowed_within bound hi ((t, allowed) ∷ log) =
    if allowed && (ltb_ℤ bound (pos t) && leb t hi)
    then suc (allowed_within bound hi log)
    else allowed_within bound hi log

abbrev pub IsLatest : ℕ → Log → Type 0
IsLatest now [] = Unit
IsLatest now ((t, _) ∷ _) = t ≤ now

pub count-filter :
    (a b : ℤ) (ss : List ℕ)
    → a ≤ℤ b
    → count_above b (filter (λ s. ltb_ℤ a (pos s)) ss) ≡ count_above b ss
count-filter a b [] h = refl
count-filter a b (s ∷ ss) h = ground (arith, count-filter a b ss h)

pub length-filter :
    (a : ℤ) (ss : List ℕ) → length (filter (λ s. ltb_ℤ a (pos s)) ss) ≡ count_above a ss
length-filter a [] = refl
length-filter a (s ∷ ss) = ground (arith, length-filter a ss)

pub requests_after_anti :
    (a b : ℤ) (log : Log) → a ≤ℤ b → requests_after b log ≤ requests_after a log
requests_after_anti a b [] h = omega arith
requests_after_anti a b ((t, _) ∷ log) h = ground (arith, requests_after_anti a b log h)

pub allowed-le-requests :
    (b : ℤ) (hi : ℕ) (log : Log) → allowed_within b hi log ≤ requests_after b log
allowed-le-requests b hi [] = omega arith
allowed-le-requests b hi ((t, _) ∷ log) = ground (arith, allowed-le-requests b hi log)
