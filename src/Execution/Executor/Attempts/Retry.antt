-- ===== src/Execution/Executor/Attempts/Retry.antt =====
-- The retry policy of services/execution-service/app/mt5_executor.py, against the replies of the
-- broker.
use mathlib.Core.List.{append_assoc}
use vix_75_platform.Base.{
  ℕ, zero, suc, ◌+◌, ◌≤◌, ◌≡◌, refl, ◌⊎◌, inl, inr, String, Bool, true, false, not, ◌&&◌, Option,
  none, some, List, [], ◌∷◌, ◌++◌, arith, sym, ap, subst, ◌∙◌,
}
use vix_75_platform.Base.Result.{ok}
use vix_75_platform.Float.{Float}
use vix_75_platform.Schemas.{OrderRequest}
use vix_75_platform.Execution.Executor.{
  Request, SendResult, Terminal, ExecOutcome, Executor, is_done, is_retryable, max_attempts,
}
use vix_75_platform.Execution.Executor.Attempts.{
  Verdict, final, again, judge, pause, attempt, execute, build_request,
}

abbrev pub replicate {ℓ} : {A : Type ℓ} → ℕ → A → List A
replicate zero a = []
replicate (suc n) a = a ∷ replicate n a

module _ {F : Type 0} where
  -- A reply that confirms the order, and one after which the order is sent again.
  abbrev pub confirms : Option (SendResult F) → Bool
  confirms none = false
  confirms (some r) = is_done r.retcode

  abbrev pub wants_retry : Option (SendResult F) → Bool
  wants_retry none = true
  wants_retry (some r) = not (is_done r.retcode) && is_retryable r.retcode

  -- All replies but the last want a retry; the last one decides.
  abbrev pub IsDecidedBy : ExecOutcome F → List (Option (SendResult F)) → Type 0
  IsDecidedBy o [] = ⊥
  IsDecidedBy o (r ∷ []) = (o.result.accepted ≡ confirms r) × (o.retryable_gave_up ≡ wants_retry r)
  IsDecidedBy o (r ∷ next ∷ rs) = (wants_retry r ≡ true) × IsDecidedBy o (next ∷ rs)

module _ {F : Type 0} ⦃d : Float F⦄ (order : OrderRequest F) where
  abbrev Judges : ℕ → Option (SendResult F) → Verdict F → Type 0
  Judges attempts reply (final o) =
      (o.result.accepted ≡ confirms reply)
      × (wants_retry reply ≡ false)
      × (o.retryable_gave_up ≡ false)
      × (o.attempts ≡ attempts)
  Judges attempts reply (again _ _) = (wants_retry reply ≡ true) × (confirms reply ≡ false)

  judge-Judges :
      (attempts : ℕ) (last : Option String) (reply : Option (SendResult F)) (error : String)
      → Judges attempts reply (judge order attempts last reply error)
  unfolding judge
  judge-Judges attempts last none error = (refl, refl)
  judge-Judges attempts last (some r) error = ground arith

Verdict-cases :
    {F : Type 0} (v : Verdict F)
    → ((o : ExecOutcome F) × (v ≡ final o))
      ⊎ ((desc : String) × (error : String) × (v ≡ again desc error))
Verdict-cases (final o) = inl (o, refl)
Verdict-cases (again desc error) = inr (desc, error, refl)

module _ {F T : Type 0} ⦃d : Float F⦄ ⦃m : Terminal F T⦄ (request : Request F) where
  -- What the broker answers when the request is sent `n` times.
  abbrev pub replies : ℕ → T → List (Option (SendResult F))
  replies zero t = []
  replies (suc n) t = let sent = m.order_send request t in sent.0 ∷ replies n sent.1

  -- The rounds that a call of the loop made.
  pub record IsSettled (left attempts : ℕ) (t : T) (sends : List (Request F)) (o : ExecOutcome F)
      (ex : Executor F T) : Type 0 where
    pub rounds : ℕ
    pub some_round : 1 ≤ rounds
    pub rounds_le : rounds ≤ left
    pub attempts_eq : o.attempts ≡ attempts + rounds
    pub sends_eq : ex.sends ≡ sends ++ replicate rounds request
    pub decided : IsDecidedBy o (replies rounds t)
    pub gave_up : o.retryable_gave_up ≡ true → rounds ≡ left

  decided-more :
      (o : ExecOutcome F) (n : ℕ) (t : T)
      → 1 ≤ n
      → wants_retry (m.order_send request t).0 ≡ true
      → IsDecidedBy o (replies n (m.order_send request t).1)
      → IsDecidedBy o (replies (suc n) t)
  decided-more o zero t h w k = ground arith
  decided-more o (suc n) t h w k = (w, k)

  more :
      (left attempts : ℕ) (t : T) (sends sends' : List (Request F)) (o : ExecOutcome F)
      (ex : Executor F T)
      → sends' ≡ sends ++ (request ∷ [])
      → wants_retry (m.order_send request t).0 ≡ true
      → IsSettled left (attempts + 1) (m.order_send request t).1 sends' o ex
      → IsSettled (suc left) attempts t sends o ex
  more left attempts t sends sends' o ex e w h = record {
    rounds = suc h.rounds;
    some_round = omega arith;
    rounds_le = omega (arith, h.rounds_le);
    attempts_eq = omega (arith, h.attempts_eq);
    sends_eq =
        h.sends_eq
        ∙ ap (λ xs. xs ++ replicate h.rounds request) e
        ∙ append_assoc sends (request ∷ []) (replicate h.rounds request);
    decided = decided-more o h.rounds t h.some_round w h.decided;
    gave_up = λ g. omega (arith, h.gave_up g);
  }

  once :
      (left attempts : ℕ) (t : T) (sends : List (Request F)) (o : ExecOutcome F) (ex : Executor F T)
      → ex.sends ≡ sends ++ (request ∷ [])
      → o.attempts ≡ attempts + 1
      → o.result.accepted ≡ confirms (m.order_send request t).0
      → o.retryable_gave_up ≡ wants_retry (m.order_send request t).0
      → (o.retryable_gave_up ≡ true → 1 ≡ suc left)
      → IsSettled (suc left) attempts t sends o ex
  once left attempts t sends o ex hs ha hc hw hg = record {
    rounds = 1;
    some_round = omega arith;
    rounds_le = omega arith;
    attempts_eq = ha;
    sends_eq = hs;
    decided = (hc, hw);
    gave_up = hg;
  }

  module _ (order : OrderRequest F) where
    sends-pause :
        (attempts : ℕ) (delay : F) (ex : Executor F T) → (pause attempts delay ex).sends ≡ ex.sends
    sends-pause attempts delay ex = ground arith

    attempt-IsSettled :
        (left attempts : ℕ) (delay : F) (desc : String) (last : Option String) (t : T)
        (ex : Executor F T)
        → IsSettled
            (suc left)
            attempts
            t
            ex.sends
            (attempt (suc left) request order attempts delay desc last t ex).0
            (attempt (suc left) request order attempts delay desc last t ex).1
    unfolding attempt
    attempt-IsSettled zero attempts delay desc last t ex =
        let sent = m.order_send request t in
        let judged = judge-Judges order (attempts + 1) last sent.0 (m.last_error sent.1) in
        elim (Verdict-cases (judge order (attempts + 1) last sent.0 (m.last_error sent.1))) [
          | inl (o, e) ↦
              let (c, w, g, n) : Judges order (attempts + 1) sent.0 (final o) =
                subst (Judges order (attempts + 1) sent.0) e judged in
              rw (e, attempt) (once zero attempts t ex.sends o _ refl n c (g ∙ sym w) (λ _. refl))
          | inr (desc', error, e) ↦
              let (w, c) : Judges order (attempts + 1) sent.0 (again desc' error) =
                subst (Judges order (attempts + 1) sent.0) e judged in
              rw (e, attempt)
                (once zero attempts t ex.sends _ _ (sends-pause (attempts + 1) delay _) refl (sym c)
                  (sym w) (λ _. refl))
        ]
    attempt-IsSettled (suc left) attempts delay desc last t ex =
        let sent = m.order_send request t in
        let judged = judge-Judges order (attempts + 1) last sent.0 (m.last_error sent.1) in
        elim (Verdict-cases (judge order (attempts + 1) last sent.0 (m.last_error sent.1))) [
          | inl (o, e) ↦
              let (c, w, g, n) : Judges order (attempts + 1) sent.0 (final o) =
                subst (Judges order (attempts + 1) sent.0) e judged in
              rw (e, attempt)
                (once (suc left) attempts t ex.sends o _ refl n c (g ∙ sym w) (λ y. cc))
          | inr (desc', error, e) ↦
              let (w, c) : Judges order (attempts + 1) sent.0 (again desc' error) =
                subst (Judges order (attempts + 1) sent.0) e judged in
              let tried : Executor F T = record ex {
                terminal = some sent.1;
                sends = ex.sends ++ (request ∷ []);
              } in
              rw (e, attempt)
                (more (suc left) attempts t ex.sends _ _ _ (sends-pause (attempts + 1) delay tried)
                  w
                  (attempt-IsSettled left (attempts + 1) (d.mul delay (d.lit 2 0)) desc'
                    (some error) sent.1 (pause (attempts + 1) delay tried)))
        ]

    -- A live order for which a request can be built gets an outcome, and the same request was sent
    -- one to three times: every answer but the last one wants a retry, the last one decides
    -- between a fill and a rejection, and an outcome that gave up sent three.
    pub execute-IsSettled :
        (clock : ℕ) (ex : Executor F T) (t : T)
        → ex.dry_run_mode ≡ false
        → ex.terminal ≡ some t
        → build_request ex order none t ≡ ok request
        → (o : ExecOutcome F) × ((execute clock ex order).0 ≡ ok o)
          × IsSettled max_attempts 0 t ex.sends o (execute clock ex order).1
    unfolding execute
    execute-IsSettled clock ex t hd ht hb =
        rw (hd, ht, hb) (_, refl, attempt-IsSettled 2 0 ex.backoff_base_s "no response" none t ex)

-- In dry-run mode `execute` leaves the terminal, the orders sent and the pauses unchanged.
execute-dry_run :
    {F T : Type 0} ⦃d : Float F⦄ ⦃m : Terminal F T⦄ (clock : ℕ) (ex : Executor F T)
    (order : OrderRequest F)
    → ex.dry_run_mode ≡ true
    → (execute clock ex order).1 ≡ ex
unfolding execute
execute-dry_run clock ex order h = rw h refl
