-- ===== src/Execution/Consumer/Once.antt =====
-- Which messages make services/execution-service/app/consumer.py run the executor.
use vix_75_platform.Base.{
  String, ◌≡◌, refl, Bool, true, false, Option, none, some, List, [], ◌∷◌, arith, is_some,
  if◌then◌else◌, Option-cases, Bool-cases, inl, inr,
}
use vix_75_platform.Base.Dict.{Dict, lookup, lookup-insert_self}
use vix_75_platform.Base.Result.{Result, ok, raise, Result-cases}
use vix_75_platform.Float.{Float}
use vix_75_platform.Json.{JsonLib, JsonValue}
use vix_75_platform.Redis.{Redis}
use vix_75_platform.Schemas.{OrderRequest}
use vix_75_platform.Schemas.Uuid.{uuid_from_hex}
use vix_75_platform.Execution.Executor.{Terminal, Executor, ExecOutcome}
use vix_75_platform.Execution.Executor.Attempts.{execute}
use vix_75_platform.Execution.Trades.{insert_pending, insert_row, pending_row, audit}
use vix_75_platform.Execution.Consumer.{
  ExecutionConsumer, record_outcome, settle, place, suppress, after_cache, respond, handle,
}
use vix_75_platform.Execution.Orders.{result_key, parse_order, ExecutionEnv}
use vix_75_platform.Execution.Trades.Rows.{
  has_row, KeepsRows, insert-KeepsRows, set_status-KeepsRows,
}

module _ {F : Type 0} where
  abbrev pub uuid_called : OrderRequest F → List (OrderRequest F)
  uuid_called order = elim (uuid_from_hex order.signal_id) [ ok _ ↦ order ∷ [] | raise _ ↦ [] ]

  uuid_called-ok :
      (order : OrderRequest F) (u : String)
      → uuid_from_hex order.signal_id ≡ ok u
      → uuid_called order ≡ order ∷ []
  uuid_called-ok order u e = rw (e, uuid_called) refl

module _ {F R T : Type 0} ⦃d : Float F⦄ ⦃j : JsonLib F⦄ ⦃c : Redis R⦄ ⦃m : Terminal F T⦄
    (env : ExecutionEnv F) where
  -- The orders that `_handle` gives to the executor: those parsed whose result is not cached, whose
  -- key has no row and whose signal id is valid.
  abbrev pub called_on : OrderRequest F → ExecutionConsumer F R T → List (OrderRequest F)
  called_on order s =
      if is_some (c.get (result_key order.idempotency_key) s.redis)
      then []
      else if has_row order.idempotency_key s.db
      then []
      else uuid_called order

  abbrev pub called_of :
      Result (Option (OrderRequest F)) → ExecutionConsumer F R T → List (OrderRequest F)
  called_of (ok (some order)) s = called_on order s
  called_of (ok none) s = []
  called_of (raise e) s = []

  abbrev pub called : Dict String → ExecutionConsumer F R T → List (OrderRequest F)
  called decoded s = called_of (parse_order env decoded) s

  -- One state after another: the executor ran for the orders, all of them new, and each has a row.
  abbrev pub Ran :
      List (OrderRequest F) → ExecutionConsumer F R T → ExecutionConsumer F R T → Type 0
  Ran [] s s' = s'.executor ≡ s.executor
  Ran (order ∷ _) s s' =
      (s'.executor ≡ (execute env.clock s.executor order).1)
      × (has_row order.idempotency_key s.db ≡ false)
      × (has_row order.idempotency_key s'.db ≡ true)

  -- No row is lost between two states.
  abbrev pub Keeps : ExecutionConsumer F R T → ExecutionConsumer F R T → Type 0
  Keeps s s' = KeepsRows s.db s'.db

  record_outcome-Keeps :
      (cid : String) (order : OrderRequest F) (outcome : ExecOutcome F)
      (s : ExecutionConsumer F R T)
      → ((record_outcome env cid order outcome s).executor ≡ s.executor)
        × Keeps s (record_outcome env cid order outcome s)
  unfolding record_outcome audit
  record_outcome-Keeps cid order outcome s = (
    refl,
    λ k h. elim (Bool-cases outcome.result.accepted) [
      | inl e ↦ rw e (set_status-KeepsRows _ _ _ _ s.db k h)
      | inr e ↦ rw e (set_status-KeepsRows _ _ _ _ s.db k h)
    ],
  )

  settle-Keeps :
      (cid : String) (order : OrderRequest F) (s : ExecutionConsumer F R T)
      (r : Result (ExecOutcome F) × Executor F T)
      → ((settle env cid order s r).0.executor ≡ r.1) × Keeps s (settle env cid order s r).0
  settle-Keeps cid order s (raise e, ex) = (refl, λ k h. h)
  settle-Keeps cid order s (ok outcome, ex) =
      record_outcome-Keeps cid order outcome (record s { executor = ex })

  Ran-none :
      (b : Bool) (s s' : ExecutionConsumer F R T)
      → s'.executor ≡ s.executor
      → Ran (if b then [] else []) s s'
  Ran-none true s s' h = h
  Ran-none false s s' h = h

  settled :
      (cid : String) (order : OrderRequest F) (s : ExecutionConsumer F R T) (u : String)
      → lookup order.idempotency_key s.db.trades ≡ none
      → let (_, db) = insert_row order u none s.db in
        let s' =
          (settle env cid order (record s { db = db }) (execute env.clock s.executor order)).0 in
        Ran (order ∷ []) s s' × Keeps s s'
  settled cid order s u er =
      let (_, db) = insert_row order u none s.db in
      let (ran, keeps) =
        settle-Keeps cid order (record s { db = db }) (execute env.clock s.executor order) in
      (
        (
          ran,
          ground (arith, er),
          keeps order.idempotency_key (
              ground (
                arith,
                lookup-insert_self order.idempotency_key (pending_row order u) s.db.trades,
              )),
        ),
        λ k h.
            keeps k (insert-KeepsRows k order.idempotency_key (pending_row order u) s.db.trades h),
      )

  place-Ran :
      (cid : String) (order : OrderRequest F) (s : ExecutionConsumer F R T)
      → Ran
          (if has_row order.idempotency_key s.db then [] else uuid_called order)
          s
          (place env cid order s (insert_pending order s.db)).0
        × Keeps s (place env cid order s (insert_pending order s.db)).0
  unfolding insert_pending
  place-Ran cid order s = elim (Result-cases (uuid_from_hex order.signal_id)) [
    | inr (e, eq) ↦
        rw (eq, insert_pending, uuid_called)
          (Ran-none (has_row order.idempotency_key s.db) s s refl, λ k h. h)
    | inl (u, eq) ↦ elim (Option-cases (lookup order.idempotency_key s.db.trades)) [
      | inr (row, er) ↦ rw (eq, er, insert_pending) (refl, λ k h. h)
      | inl er ↦ rw (er, eq, uuid_called-ok order u eq, insert_pending) (settled cid order s u er)
    ]
  ]

  suppress-Ran :
      (r : Result (Dict (JsonValue F))) (s : ExecutionConsumer F R T)
      → Ran [] s (suppress env r s).0 × Keeps s (suppress env r s).0
  suppress-Ran (raise e) s = (refl, λ k h. h)
  suppress-Ran (ok _) s = (refl, λ k h. h)

  after_cache-Ran :
      (cid : String) (order : OrderRequest F) (s : ExecutionConsumer F R T) (cached : Option String)
      → Ran
          (if is_some cached
            then []
            else if has_row order.idempotency_key s.db
            then []
            else uuid_called order)
          s
          (after_cache env cid order s cached).0
        × Keeps s (after_cache env cid order s cached).0
  after_cache-Ran cid order s (some cached) = suppress-Ran (j.loads cached) s
  after_cache-Ran cid order s none = place-Ran cid order s

  respond-Ran :
      (cid : String) (s : ExecutionConsumer F R T) (r : Result (Option (OrderRequest F)))
      → Ran (called_of r s) s (respond env cid s r).0 × Keeps s (respond env cid s r).0
  respond-Ran cid s (raise e) = (refl, λ k h. h)
  respond-Ran cid s (ok none) = (refl, λ k h. h)
  respond-Ran cid s (ok (some order)) = after_cache-Ran cid order s _

  -- `_handle` leaves the executor alone, unless the message holds a valid order whose result is
  -- not cached, whose key has no row and whose signal id is valid; then it runs `execute` on that
  -- order and the key has a row. No row of the table is lost.
  pub handle-Ran :
      (decoded : Dict String) (s : ExecutionConsumer F R T)
      → Ran (called decoded s) s (handle env decoded s).0 × Keeps s (handle env decoded s).0
  unfolding handle
  handle-Ran decoded s = respond-Ran _ s (parse_order env decoded)
