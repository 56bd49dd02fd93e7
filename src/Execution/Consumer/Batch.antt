-- ===== src/Execution/Consumer/Batch.antt =====
-- The at-most-once promise of services/execution-service/app/consumer.py over a batch.
use vix_75_platform.Base.{
  ℕ, String, ◌≡◌, refl, Bool, true, false, Option, none, some, List, [], ◌∷◌, ap, map, ◌∙◌, All,
  ◌⊎◌, is_some, if◌then◌else◌, inl, inr,
}
use vix_75_platform.Base.Dict.{Dict}
use vix_75_platform.Base.Result.{Result, ok, raise, Result-cases}
use vix_75_platform.Float.{Float}
use vix_75_platform.Json.{JsonLib}
use vix_75_platform.Redis.{Redis}
use vix_75_platform.Schemas.{OrderRequest}
use vix_75_platform.Schemas.Uuid.{uuid_from_hex}
use vix_75_platform.Execution.Executor.{Terminal, Executor}
use vix_75_platform.Execution.Executor.Attempts.{execute}
use vix_75_platform.Execution.Consumer.{ExecutionConsumer, Message, handle, handle_all}
use vix_75_platform.Execution.Orders.{result_key, parse_order, ExecutionEnv}
use vix_75_platform.Execution.Trades.Rows.{has_row, AreNew, new_before, others}
use vix_75_platform.Execution.Consumer.Once.{
  uuid_called, called_on, called_of, called, Ran, Keeps, handle-Ran,
}

module _ {F : Type 0} where
  if-All :
      (P : OrderRequest F → Type 0) (b : Bool) (xs ys : List (OrderRequest F))
      → All P xs
      → All P ys
      → All P (if b then xs else ys)
  if-All P true xs ys h k = h
  if-All P false xs ys h k = k

  uuid_called-All :
      (P : OrderRequest F → Type 0) (order : OrderRequest F) → P order → All P (uuid_called order)
  uuid_called-All P order h = elim (Result-cases (uuid_from_hex order.signal_id)) [
    | inl (u, e) ↦ rw (e, uuid_called) (h, tt)
    | inr (x, e) ↦ rw (e, uuid_called) tt
  ]

module _ {F T : Type 0} ⦃d : Float F⦄ ⦃m : Terminal F T⦄ where
  -- The executor after it has run for the orders, one after the other.
  abbrev pub run_each : ℕ → List (OrderRequest F) → Executor F T → Executor F T
  run_each clock [] ex = ex
  run_each clock (order ∷ orders) ex = run_each clock orders (execute clock ex order).1

module _ {F : Type 0} ⦃d : Float F⦄ ⦃j : JsonLib F⦄ (env : ExecutionEnv F) where
  -- A message of the batch holds the order.
  abbrev pub IsAsked : List Message → OrderRequest F → Type 0
  IsAsked [] order = ⊥
  IsAsked ((_, fields) ∷ messages) order =
      (parse_order env fields ≡ ok (some order)) ⊎ IsAsked messages order

  IsAsked-later :
      (message : Message) (messages : List Message) (orders : List (OrderRequest F))
      → All (IsAsked messages) orders
      → All (IsAsked (message ∷ messages)) orders
  IsAsked-later message messages [] h = tt
  IsAsked-later message messages (order ∷ orders) (h, later) =
      (inr h, IsAsked-later message messages orders later)

module _ {F R T : Type 0} ⦃d : Float F⦄ ⦃j : JsonLib F⦄ ⦃c : Redis R⦄ ⦃m : Terminal F T⦄
    (env : ExecutionEnv F) where
  -- The executor has run for exactly the given orders of the batch. Their keys differ from each other,
  -- had no row in the first state and have one in the last.
  pub record RanOnce (messages : List Message) (s s' : ExecutionConsumer F R T) : Type 0 where
    pub orders : List (OrderRequest F)
    pub asked : All (IsAsked env messages) orders
    pub ran : s'.executor ≡ run_each env.clock orders s.executor
    pub new : AreNew (map (λ o. o.idempotency_key) orders) s.db s'.db

  called_on-All :
      (P : OrderRequest F → Type 0) (order : OrderRequest F) (s : ExecutionConsumer F R T)
      → P order
      → All P (called_on env order s)
  called_on-All P order s h =
      if-All P (is_some (c.get (result_key order.idempotency_key) s.redis)) [] _ tt
        (if-All P (has_row order.idempotency_key s.db) [] _ tt (uuid_called-All P order h))

  called_of-All :
      (r : Result (Option (OrderRequest F))) (s : ExecutionConsumer F R T)
      → All (λ o. r ≡ ok (some o)) (called_of env r s)
  called_of-All (ok (some order)) s = called_on-All _ order s refl
  called_of-All (ok none) s = tt
  called_of-All (raise e) s = tt

  handle_all-Keeps :
      (messages : List Message) (s : ExecutionConsumer F R T)
      → Keeps env s (handle_all env messages s).0
  unfolding handle_all
  handle_all-Keeps [] s = λ k h. h
  handle_all-Keeps ((id, fields) ∷ messages) s =
      let (_, keeps) = handle-Ran env fields s in
      elim (Result-cases (handle env fields s).1) [
        | inl (_, e) ↦
            rw (e, handle_all)
              (λ k h. handle_all-Keeps messages (handle env fields s).0 k (keeps k h))
        | inr (_, e) ↦ rw (e, handle_all) keeps
      ]

  Ran-RanOnce :
      (id : String) (fields : Dict String) (messages : List Message)
      (orders : List (OrderRequest F)) (s s' s'' : ExecutionConsumer F R T)
      → All (λ o. parse_order env fields ≡ ok (some o)) orders
      → Ran env orders s s'
      → Keeps env s s'
      → Keeps env s' s''
      → RanOnce messages s' s''
      → RanOnce ((id, fields) ∷ messages) s s''
  Ran-RanOnce id fields messages [] s s' s'' asked ran keeps later once = record {
    orders = once.orders;
    asked = IsAsked-later env (id, fields) messages once.orders once.asked;
    ran = once.ran ∙ ap (λ ex. run_each env.clock once.orders ex) ran;
    new = new_before _ s.db s'.db s''.db keeps once.new;
  }
  Ran-RanOnce id fields messages (order ∷ _) s s' s'' asked (ran, before, after) keeps later once =
      record {
        orders = order ∷ once.orders;
        asked = (inl asked.0, IsAsked-later env (id, fields) messages once.orders once.asked);
        ran = once.ran ∙ ap (λ ex. run_each env.clock once.orders ex) ran;
        new = (
          (
            (before, later order.idempotency_key after),
            (new_before _ s.db s'.db s''.db keeps once.new).0,
          ),
          (others order.idempotency_key _ s'.db s''.db after once.new.0, once.new.1),
        );
      }

  none_ran : (messages : List Message) (s : ExecutionConsumer F R T) → RanOnce messages s s
  none_ran messages s = record { orders = []; asked = tt; ran = refl; new = (tt, tt) }

  -- After any batch of order requests the executor is in the state in which `execute`, run in turn
  -- for the orders of some list, leaves the executor from before the batch; each of these orders
  -- is that of a message of the batch; their keys differ from each other, had no row in the
  -- `trades` table before the batch and have one after it.
  pub handle_all_once :
      (messages : List Message) (s : ExecutionConsumer F R T)
      → RanOnce messages s (handle_all env messages s).0
  unfolding handle_all
  handle_all_once [] s = none_ran [] s
  handle_all_once ((id, fields) ∷ messages) s =
      let s' = (handle env fields s).0 in
      let (ran, keeps) = handle-Ran env fields s in
      let asked = called_of-All (parse_order env fields) s in
      let continue = Ran-RanOnce id fields messages (called env fields s) s s' in
      elim (Result-cases (handle env fields s).1) [
        | inl (_, e) ↦
            rw (e, handle_all)
              (continue (handle_all env messages s').0 asked ran keeps
                (handle_all-Keeps messages s') (handle_all_once messages s'))
        | inr (_, e) ↦
            rw (e, handle_all) (continue s' asked ran keeps (λ k h. h) (none_ran messages s'))
      ]
