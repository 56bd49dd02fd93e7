-- ===== src/Gateway/Limiter/Bound.antt =====
-- The guarantees of services/api-gateway/app/rate_limiter.py.
use vix_75_platform.Base.{
  ℕ, suc, ◌≤◌, ◌<◌, String, ◌≡◌, refl, Bool, true, false, some, List, [], ◌∷◌, arith, leb, length,
  ◌∙◌, ap, sym,
}
use vix_75_platform.Base.Int.{ℤ, pos, ◌+ℤ◌, ◌-ℤ◌, ◌≤ℤ◌, ltb_ℤ}
use mathlib.Core.Option.{some-injective}
use vix_75_platform.Gateway.Limiter.{
  SortedSets, SortedSetLaws, SlidingWindowLimiter, RateDecision, count_above, head?, window_ms,
  window_start, wait_seconds, rate_key, record_request, check,
}
use vix_75_platform.Gateway.Limiter.Window.{
  Log, requests_after, allowed_within, IsLatest, count-filter, length-filter, requests_after_anti,
  allowed-le-requests,
}

-- No request of the log is newer than `bound` plus the window.
abbrev Covers : SlidingWindowLimiter → ℤ → Log → Type 0
Covers l bound [] = Unit
Covers l bound ((t, _) ∷ _) = window_start l t ≤ℤ bound

Covers-of_latest :
    (l : SlidingWindowLimiter) (now : ℕ) (b : ℤ) (log : Log)
    → IsLatest now log
    → window_start l now ≤ℤ b
    → Covers l b log
Covers-of_latest l now b [] late h = tt
Covers-of_latest l now b ((t, _) ∷ log) late h = ground arith

count_above-le : (b : ℤ) (ss : List ℕ) → count_above b ss ≤ length ss
count_above-le b [] = omega arith
count_above-le b (s ∷ ss) = ground (arith, count_above-le b ss)

head?-above :
    (b : ℤ) (f : ℕ) (ss : List ℕ)
    → count_above b ss ≡ length ss
    → head? ss ≡ some f
    → ltb_ℤ b (pos f) ≡ true
head?-above b f [] h e = cc
head?-above b f (s ∷ ss) h e = ground (arith, count_above-le b ss)

wait_seconds_bounds :
    (l : SlidingWindowLimiter) (now f : ℕ)
    → f ≤ now
    → ltb_ℤ (window_start l now) (pos f) ≡ true
    → let wait = wait_seconds (pos f +ℤ pos (window_ms l) -ℤ pos now) in
      (1 ≤ wait) × (0 < l.window_s → wait ≤ l.window_s)
wait_seconds_bounds l now f h k = ground arith

module _ {R : Type 0} ⦃z : SortedSets R⦄ (l : SlidingWindowLimiter) (subject : String) where
  -- The keyspaces that a sequence of checks reaches from an empty set, with what was answered.
  -- A member's text is new each time, since it holds a fresh random id.
  pub data Served : R → Log → Type 0 where
    start : (r : R) → z.scores (rate_key subject) r ≡ [] → Served r []
    serve :
        (r r' : R) (log : Log) (member : String) (now : ℕ) (d : RateDecision)
        → Served r log
        → IsLatest now log
        → z.has_member (rate_key subject) member r ≡ false
        → check l subject member now (some r) ≡ (d, some r')
        → Served r' ((now, d.allowed) ∷ log)

  -- Above each bound that pruning has not passed, the set and the log count alike.
  abbrev Counted : R → Log → Type 0
  Counted r log =
      (b : ℤ)
      → Covers l b log
      → count_above b (z.scores (rate_key subject) r) ≡ requests_after b log

  module _ (laws : SortedSetLaws R) where
    open laws use {
      scores-zremrangebyscore, has_member-zremrangebyscore, count-zadd, length-zadd, head?-zadd,
      zcard-scores, scores-expire, first_score-scores,
    }

    module _ (member : String) (now : ℕ) (r : R)
        (new : z.has_member (rate_key subject) member r ≡ false) where
      abbrev key : String
      key = rate_key subject

      abbrev after : R
      after = record_request l key member now r

      count-record_request :
          (b : ℤ)
          → window_start l now ≤ℤ b
          → count_above b (z.scores key after) ≡ count_above b (now ∷ z.scores key r)
      unfolding record_request
      count-record_request b h =
          let pruned = z.zremrangebyscore key (window_start l now) r in
          let fresh = has_member-zremrangebyscore key member (window_start l now) r new in
          ground (
            arith,
            scores-expire key l.window_s (z.zadd key member now pruned),
            count-zadd key member now b pruned fresh,
            scores-zremrangebyscore key (window_start l now) r,
            count-filter (window_start l now) b (z.scores key r) h,
          )

      length-record_request :
          length (z.scores key after) ≡ suc (count_above (window_start l now) (z.scores key r))
      unfolding record_request
      length-record_request =
          let pruned = z.zremrangebyscore key (window_start l now) r in
          let fresh = has_member-zremrangebyscore key member (window_start l now) r new in
          ground (
            arith,
            scores-expire key l.window_s (z.zadd key member now pruned),
            length-zadd key member now pruned fresh,
            scores-zremrangebyscore key (window_start l now) r,
            length-filter (window_start l now) (z.scores key r),
          )

      head?-record_request : (f : ℕ) × (head? (z.scores key after) ≡ some f) × (f ≤ now)
      unfolding record_request
      head?-record_request =
          let pruned = z.zremrangebyscore key (window_start l now) r in
          rw (scores-expire key l.window_s (z.zadd key member now pruned))
            (head?-zadd key member now pruned)

      -- A check allows exactly if the requests in the window, this one included, are within the
      -- limit. Requests that were refused count too.
      check_allowed :
          (log : Log)
          → Counted r log
          → IsLatest now log
          → (check l subject member now (some r)).0.allowed
            ≡ leb (suc (requests_after (window_start l now) log)) l.limit
      unfolding check
      check_allowed log c late =
          let b = window_start l now in
          let same = c b (Covers-of_latest l now b log late (omega arith)) in
          ground (arith, zcard-scores key after, length-record_request, same)

      check_state : (check l subject member now (some r)).1 ≡ some after
      unfolding check
      check_state = ground arith

      Counted-after :
          (log : Log) (answer : Bool)
          → Counted r log
          → IsLatest now log
          → Counted after ((now, answer) ∷ log)
      Counted-after log answer c late b h =
          let same = c b (Covers-of_latest l now b log late h) in
          ground (arith, count-record_request b h, same)

    Served-Counted : {r : R} {log : Log} → Served r log → Counted r log
    Served-Counted (start r e) = λ b h. rw e refl
    Served-Counted (serve r r' log member now d s late new e) =
        let state : r' ≡ record_request l (rate_key subject) member now r =
          some-injective _ _ (sym (ap (λ p. p.1) e) ∙ check_state member now r new) in
        rw state (Counted-after member now r new log d.allowed (Served-Counted s) late)

    -- Under the sorted-set laws, after any sequence of checks of one subject with a clock that
    -- does not go back and fresh members, from an empty set, at most `limit` requests were allowed
    -- in each window of the limiter's length.
    pub allowed-le-limit :
        {r : R} {log : Log}
        → Served r log
        → (hi : ℕ) → allowed_within (window_start l hi) hi log ≤ l.limit
    allowed-le-limit (start r e) hi = omega arith
    allowed-le-limit (serve r r' log member now d s late new e) hi =
        let b = window_start l hi in
        let answer : d.allowed ≡ leb (suc (requests_after (window_start l now) log)) l.limit =
          sym (ap (λ p. p.0.allowed) e)
          ∙ check_allowed member now r new log (Served-Counted s) late in
        ground (
          arith,
          allowed-le-limit s hi,
          allowed-le-requests b hi log,
          requests_after_anti (window_start l now) b log,
        )

    -- Under the sorted-set laws, in a reachable state a check allows exactly if the requests in
    -- its window, itself and refused ones included, are at most `limit`.
    pub check_iff :
        {r : R} {log : Log} (member : String) (now : ℕ)
        → Served r log
        → IsLatest now log
        → z.has_member (rate_key subject) member r ≡ false
        → (check l subject member now (some r)).0.allowed
          ≡ leb (suc (requests_after (window_start l now) log)) l.limit
    check_iff {r} {log} member now s late new =
        check_allowed member now r new log (Served-Counted s) late

    -- Under the sorted-set laws, with a window of at least one second and a fresh member, a
    -- refusal names a wait of at least one second and at most the window.
    pub retry_after_bounds :
        (member : String) (now : ℕ) (r : R)
        → 0 < l.window_s
        → z.has_member (rate_key subject) member r ≡ false
        → (check l subject member now (some r)).0.allowed ≡ false
        → (1 ≤ (check l subject member now (some r)).0.retry_after_s)
          × ((check l subject member now (some r)).0.retry_after_s ≤ l.window_s)
    unfolding check
    retry_after_bounds member now r pos_window new refused =
        let b = window_start l now in
        let set = record_request l (rate_key subject) member now r in
        let (f, found, recent) = head?-record_request member now r new in
        let young =
          head?-above b f (z.scores (rate_key subject) set)
            (ground (
              arith,
              length-record_request member now r new,
              count-record_request member now r new b (omega arith),
            ))
            found in
        ground (
          arith,
          first_score-scores (rate_key subject) set,
          found,
          wait_seconds_bounds l now f recent young,
        )
