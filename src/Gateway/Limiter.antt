-- ===== src/Gateway/Limiter.antt =====
-- services/api-gateway/app/rate_limiter.py: a sliding window over a Redis sorted set that holds one
-- member for each request of a subject, scored by its arrival in milliseconds.
pub mod Window
pub mod Bound
use vix_75_platform.Base.{
  ℕ, zero, suc, ◌+◌, ◌-◌, ◌*◌, ◌/◌, ◌≤◌, String, ◌≡◌, ◌≢◌, Bool, true, false, Option, none, some,
  List, [], ◌∷◌, leb, format, if◌then◌else◌, filter, length,
}
use vix_75_platform.Base.Int.{ℤ, pos, negsuc, ◌+ℤ◌, ◌-ℤ◌, ltb_ℤ}

-- Redis, as far as the limiter uses it: a keyspace `R` of sorted sets. `scores k r` lists the scores
-- of the set under `k`, in order; the laws are the documented effects of the four commands. That a
-- key expires is no law: by then all its members are older than the window.
pub record SortedSets (R : Type 0) : Type 0 where
  -- `ZREMRANGEBYSCORE key -inf bound`
  pub zremrangebyscore : String → ℤ → R → R
  pub zadd : String → String → ℕ → R → R
  pub zcard : String → R → ℕ
  pub expire : String → ℕ → R → R
  -- The score of the first member, `ZRANGE key 0 0 WITHSCORES`.
  pub first_score : String → R → Option ℕ
  pub has_member : String → String → R → Bool
  pub scores : String → R → List ℕ

abbrev pub count_above : ℤ → List ℕ → ℕ
count_above bound [] = 0
count_above bound (s ∷ ss) =
    if ltb_ℤ bound (pos s) then suc (count_above bound ss) else count_above bound ss

abbrev pub head? : List ℕ → Option ℕ
head? [] = none
head? (s ∷ _) = some s

pub record SortedSetLaws (R : Type 0) ⦃z : SortedSets R⦄ : Type 0 where
  -- Pruning keeps the scores above the bound, and adds no member.
  pub scores-zremrangebyscore :
      (k : String) (b : ℤ) (r : R)
      → z.scores k (z.zremrangebyscore k b r) ≡ filter (λ s. ltb_ℤ b (pos s)) (z.scores k r)
  pub has_member-zremrangebyscore :
      (k m : String) (b : ℤ) (r : R)
      → z.has_member k m r ≡ false
      → z.has_member k m (z.zremrangebyscore k b r) ≡ false
  -- A new member adds its score; the first score is the least.
  pub count-zadd :
      (k m : String) (s : ℕ) (b : ℤ) (r : R)
      → z.has_member k m r ≡ false
      → count_above b (z.scores k (z.zadd k m s r)) ≡ count_above b (s ∷ z.scores k r)
  pub length-zadd :
      (k m : String) (s : ℕ) (r : R)
      → z.has_member k m r ≡ false
      → length (z.scores k (z.zadd k m s r)) ≡ suc (length (z.scores k r))
  pub head?-zadd :
      (k m : String) (s : ℕ) (r : R)
      → (f : ℕ) × (head? (z.scores k (z.zadd k m s r)) ≡ some f) × (f ≤ s)
  pub zcard-scores : (k : String) (r : R) → z.zcard k r ≡ length (z.scores k r)
  pub scores-expire : (k : String) (t : ℕ) (r : R) → z.scores k (z.expire k t r) ≡ z.scores k r
  pub first_score-scores : (k : String) (r : R) → z.first_score k r ≡ head? (z.scores k r)

pub record RateDecision : Type 0 where
  pub allowed : Bool
  pub remaining : ℕ
  pub retry_after_s : ℕ

pub record SlidingWindowLimiter : Type 0 where
  pub limit : ℕ
  pub window_s : ℕ

-- `self._window_ms`
abbrev pub window_ms : SlidingWindowLimiter → ℕ
window_ms l = l.window_s * 1000

-- `now_ms - self._window_ms`
abbrev pub window_start : SlidingWindowLimiter → ℕ → ℤ
window_start l now_ms = pos now_ms -ℤ pos (window_ms l)

-- `max(1, math.ceil(ms / 1000))`
abbrev pub wait_seconds : ℤ → ℕ
wait_seconds (pos ms) = let up = (ms + 999) / 1000 in if leb up 1 then 1 else up
wait_seconds (negsuc _) = 1

-- `KEY_TEMPLATE.format(subject=subject)`
pub rate_key : String → String
rate_key subject = format ("rate:" ∷ subject ∷ [])

module _ {R : Type 0} ⦃z : SortedSets R⦄ where
  open z use {zremrangebyscore, zadd, zcard, expire, first_score}

  -- The set after pruning, recording and renewing its time to live.
  unfoldable pub record_request : SlidingWindowLimiter → String → String → ℕ → R → R
  record_request l key member now_ms r =
      expire key l.window_s
        (zadd key member now_ms (zremrangebyscore key (window_start l now_ms) r))

  -- `member` is the text of the time and a fresh random id; `r` is `none` without a Redis client.
  unfoldable pub check :
      SlidingWindowLimiter → String → String → ℕ → Option R → RateDecision × Option R
  check l subject member now_ms none =
      (record { allowed = true; remaining = l.limit; retry_after_s = 0 }, none)
  check l subject member now_ms (some r) =
      let key = rate_key subject in
      let r' = record_request l key member now_ms r in
      let count = zcard key r' in
      if leb count l.limit
      then (record { allowed = true; remaining = l.limit - count; retry_after_s = 0 }, some r')
      else let oldest : ℤ = elim (first_score key r') [
        | some s ↦ pos s
        | none ↦ window_start l now_ms
      ] in
        (
          record {
            allowed = false;
            remaining = 0;
            retry_after_s = wait_seconds (oldest +ℤ pos (window_ms l) -ℤ pos now_ms);
          },
          some r',
        )
