-- ===== src/Execution/Consumer/Lost.antt =====
-- An order whose execution raises, in services/execution-service/app/consumer.py.
use vix_75_platform.Base.{String, ◌≡◌, refl, true, none, some, [], arith, subst}
use vix_75_platform.Base.Dict.{Dict, lookup, lookup-insert_self}
use vix_75_platform.Base.Result.{Result, Exception, ok, raise}
use vix_75_platform.Float.{Float}
use vix_75_platform.Json.{JsonLib}
use vix_75_platform.Redis.{Redis}
use vix_75_platform.Schemas.{OrderRequest}
use vix_75_platform.Schemas.Uuid.{uuid_from_hex}
use vix_75_platform.Execution.Executor.{Terminal}
use vix_75_platform.Execution.Executor.Attempts.{execute}
use vix_75_platform.Execution.Trades.{insert_pending, pending_row}
use vix_75_platform.Execution.Consumer.{ExecutionConsumer, handle}
use vix_75_platform.Execution.Orders.{result_key, parse_order, ExecutionEnv}
use vix_75_platform.Execution.Consumer.Once.{called, Ran, handle-Ran}
use vix_75_platform.Execution.Trades.Rows.{has_row}

module _ {F R T : Type 0} ⦃d : Float F⦄ ⦃j : JsonLib F⦄ ⦃c : Redis R⦄ ⦃m : Terminal F T⦄
    (env : ExecutionEnv F) where
  -- The order is left pending, nothing is said of it, and a later message does not run the executor.
  pub record IsLost (key : String) (e : Exception) (later : Dict String)
      (s s' : ExecutionConsumer F R T) (r : Result (Unit {0})) : Type 0 where
    pub raised : r ≡ raise e
    pub silent : s'.redis ≡ s.redis
    pub row : has_row key s'.db ≡ true
    pub not_again : (handle env later s').0.executor ≡ s'.executor

  called-none :
      (fields : Dict String) (order : OrderRequest F) (s : ExecutionConsumer F R T)
      → parse_order env fields ≡ ok (some order)
      → has_row order.idempotency_key s.db ≡ true
      → called env fields s ≡ []
  called-none fields order s hp hr = rw (hp, hr) (ground arith)

  -- A key that has a row does not reach the executor.
  handle_idle :
      (fields : Dict String) (order : OrderRequest F) (s : ExecutionConsumer F R T)
      → parse_order env fields ≡ ok (some order)
      → has_row order.idempotency_key s.db ≡ true
      → (handle env fields s).0.executor ≡ s.executor
  handle_idle fields order s hp hr =
      subst (λ orders. Ran env orders s (handle env fields s).0) (called-none fields order s hp hr)
        (handle-Ran env fields s).0

  -- If `execute` raises for a new order with a valid signal id, `_handle` raises the same
  -- exception, Redis is unchanged, the order's key has a row, and `_handle` of a later message
  -- with a valid order of the same key, on the state that is left, leaves the executor as it is.
  pub handle-IsLost :
      (decoded later : Dict String) (order again : OrderRequest F) (u : String) (e : Exception)
      (s : ExecutionConsumer F R T)
      → parse_order env decoded ≡ ok (some order)
      → c.get (result_key order.idempotency_key) s.redis ≡ none
      → lookup order.idempotency_key s.db.trades ≡ none
      → uuid_from_hex order.signal_id ≡ ok u
      → (execute env.clock s.executor order).0 ≡ raise e
      → parse_order env later ≡ ok (some again)
      → again.idempotency_key ≡ order.idempotency_key
      → IsLost order.idempotency_key e later s (handle env decoded s).0 (handle env decoded s).1
  unfolding handle insert_pending
  handle-IsLost decoded later order again u e s hp hc hl hu he hp' hk =
      rw (hp, hc, hu, hl, he, handle, insert_pending)
        (record {
          raised = refl;
          silent = refl;
          row =
              ground
                (arith, lookup-insert_self order.idempotency_key (pending_row order u) s.db.trades);
          not_again = handle_idle later again _ hp' (
              rw hk (
                ground (
                  arith,
                  lookup-insert_self order.idempotency_key (pending_row order u) s.db.trades,
                )));
        })
