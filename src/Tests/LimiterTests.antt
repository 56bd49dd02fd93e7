-- ===== src/Tests/LimiterTests.antt =====
-- The rate limiter over a keyspace of one sorted set.
use vix_75_platform.Base.{
  ℕ, suc, ◌≤◌, String, ◌≡◌, refl, Bool, true, false, ◌||◌, some, List, [], ◌∷◌, arith, leb,
  if◌then◌else◌, filter, length, inl, inr, Bool-cases,
}
use vix_75_platform.Base.Dict.{text_eq}
use vix_75_platform.Base.Int.{ℤ, pos, ltb_ℤ}
use vix_75_platform.Gateway.Limiter.{
  SortedSets, SortedSetLaws, SlidingWindowLimiter, count_above, head?, check, record_request,
  window_start,
}
use vix_75_platform.Gateway.Limiter.Window.{allowed_within, Log}
use vix_75_platform.Gateway.Limiter.Bound.{
  Served, start, serve, allowed-le-limit, check_iff, retry_after_bounds,
}

-- The members with their scores, in the order of the scores.
abbrev pub Members : Type 0
Members = List (String × ℕ)

abbrev pub scores_of : Members → List ℕ
scores_of [] = []
scores_of ((_, s) ∷ r) = s ∷ scores_of r

abbrev pub pruned : ℤ → Members → Members
pruned b [] = []
pruned b ((m, s) ∷ r) = if ltb_ℤ b (pos s) then (m, s) ∷ pruned b r else pruned b r

abbrev pub added : String → ℕ → Members → Members
added m s [] = (m, s) ∷ []
added m s ((n, t) ∷ r) = if leb s t then (m, s) ∷ (n, t) ∷ r else (n, t) ∷ added m s r

abbrev pub holds : String → Members → Bool
holds m [] = false
holds m ((n, _) ∷ r) = text_eq n m || holds m r

instance abbrev pub members_sets : SortedSets Members
members_sets = record {
  zremrangebyscore = λ _ b r. pruned b r;
  zadd = λ _ m s r. added m s r;
  zcard = λ _ r. length r;
  expire = λ _ _ r. r;
  first_score = λ _ r. head? (scores_of r);
  has_member = λ _ m r. holds m r;
  scores = λ _ r. scores_of r;
}

scores-pruned :
    (b : ℤ) (r : Members) → scores_of (pruned b r) ≡ filter (λ s. ltb_ℤ b (pos s)) (scores_of r)
scores-pruned b [] = refl
scores-pruned b ((m, s) ∷ r) = ground (arith, scores-pruned b r)

holds-pruned : (m : String) (b : ℤ) (r : Members) → holds m r ≡ false → holds m (pruned b r) ≡ false
holds-pruned m b [] h = refl
holds-pruned m b ((n, s) ∷ r) h = ground (arith, holds-pruned m b r)

count-added :
    (m : String) (s : ℕ) (b : ℤ) (r : Members)
    → count_above b (scores_of (added m s r)) ≡ count_above b (s ∷ scores_of r)
count-added m s b [] = refl
count-added m s b ((n, t) ∷ r) = ground (arith, count-added m s b r)

length-added :
    (m : String) (s : ℕ) (r : Members)
    → length (scores_of (added m s r)) ≡ suc (length (scores_of r))
length-added m s [] = refl
length-added m s ((n, t) ∷ r) = ground (arith, length-added m s r)

head?-added :
    (m : String) (s : ℕ) (r : Members)
    → (f : ℕ) × (head? (scores_of (added m s r)) ≡ some f) × (f ≤ s)
head?-added m s [] = (s, refl, omega arith)
head?-added m s ((n, t) ∷ r) = elim (Bool-cases (leb s t)) [
  | inl first ↦ (s, rw first, omega arith)
  | inr later ↦ (t, rw later, ground arith)
]

length-scores : (r : Members) → length r ≡ length (scores_of r)
length-scores [] = refl
length-scores (x ∷ r) = ground (arith, length-scores r)

members-laws : SortedSetLaws Members
members-laws = record {
  scores-zremrangebyscore = λ _ b r. scores-pruned b r;
  has_member-zremrangebyscore = λ _ m b r h. holds-pruned m b r h;
  count-zadd = λ _ m s b r _. count-added m s b r;
  length-zadd = λ _ m s r _. length-added m s r;
  head?-zadd = λ _ m s r. head?-added m s r;
  zcard-scores = λ _ r. length-scores r;
  scores-expire = λ _ _ r. refl;
  first_score-scores = λ _ r. refl;
}

-- Two requests a second.
abbrev two : SlidingWindowLimiter
two = record { limit = 2; window_s = 1 }

abbrev requests : Log
requests = (1300, false) ∷ (1200, true) ∷ (500, true) ∷ []

abbrev after_two : Members
after_two = ("a", 500) ∷ ("b", 1200) ∷ []

Served-two : Served two "u" after_two ((1200, true) ∷ (500, true) ∷ [])
unfolding check record_request text_eq
Served-two =
    serve (("a", 500) ∷ []) _ ((500, true) ∷ []) "b" 1200 _
      (serve [] _ [] "a" 500 _ (start [] refl) tt refl refl) (omega arith) refl refl

abbrev after_three : Members
after_three = ("a", 500) ∷ ("b", 1200) ∷ ("c", 1300) ∷ []

Served-three : Served two "u" after_three requests
unfolding check record_request text_eq
Served-three = serve after_two _ _ "c" 1300 _ Served-two (omega arith) refl refl

allowed-le-limit_example : allowed_within (window_start two 1400) 1400 requests ≤ 2
allowed-le-limit_example = allowed-le-limit two "u" members-laws Served-three 1400

check_iff_example : (check two "u" "c" 1300 (some after_two)).0.allowed ≡ false
unfolding text_eq
check_iff_example = check_iff two "u" members-laws "c" 1300 Served-two (omega arith) refl

retry_after_bounds_example :
    let d = (check two "u" "c" 1300 (some after_two)).0 in
    (1 ≤ d.retry_after_s) × (d.retry_after_s ≤ 1)
unfolding check record_request text_eq
retry_after_bounds_example =
    retry_after_bounds two "u" members-laws "c" 1300 after_two (omega arith) refl refl
