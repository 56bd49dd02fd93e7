-- ===== src/Execution/Consumer.antt =====
-- services/execution-service/app/consumer.py: an order request becomes at most one call of the
-- executor. Log lines and the counters of the metrics are left out.
pub mod Once
pub mod Batch
pub mod Lost
use vix_75_platform.Base.{
  ℕ, ◌+◌, String, Bool, true, false, Option, none, some, List, [], ◌∷◌, if◌then◌else◌,
}
use vix_75_platform.Base.Dict.{Dict}
use vix_75_platform.Base.Result.{Result, ok, raise}
use vix_75_platform.Correlation.{get_or_create_correlation_id}
use vix_75_platform.Float.{Float}
use vix_75_platform.Json.{JsonLib, JsonValue}
use vix_75_platform.Redis.{Redis}
use vix_75_platform.Schemas.{OrderRequest}
use vix_75_platform.Execution.Executor.{Terminal, Executor, ExecOutcome}
use vix_75_platform.Execution.Executor.Attempts.{execute}
use vix_75_platform.Execution.Trades.{
  ExecutionDatabase, to_filled, to_rejected, insert_pending, set_status, audit,
}
use vix_75_platform.Execution.Orders.{
  stream_filled, stream_rejected, result_ttl_s, result_key, result_view, filled_update,
  rejected_update, audit_entry, parse_order, filled_entry, rejected_entry, ExecutionEnv,
}

pub record ExecutionConsumer (F R T : Type 0) : Type 0 where
  pub redis : R
  pub db : ExecutionDatabase F
  pub executor : Executor F T
  pub processed : ℕ
  pub duplicates_suppressed : ℕ

abbrev pub Message : Type 0
Message = String × Dict String

module _ {F R T : Type 0} ⦃d : Float F⦄ ⦃j : JsonLib F⦄ ⦃c : Redis R⦄ ⦃m : Terminal F T⦄
    (env : ExecutionEnv F) where
  -- What `_handle` writes for an outcome: the row, the entry, the cached result and the audit line. The
  -- settings are those of the executor.
  unfoldable pub record_outcome :
      String → OrderRequest F → ExecOutcome F → ExecutionConsumer F R T → ExecutionConsumer F R T
  record_outcome cid order outcome s =
      let res = outcome.result in
      let key = order.idempotency_key in
      let dry_run = s.executor.dry_run_mode in
      let db =
        if res.accepted
        then set_status to_filled env.now key (filled_update dry_run outcome) s.db
        else set_status to_rejected env.now key (rejected_update dry_run outcome) s.db in
      let sent =
        if res.accepted
        then c.xadd stream_filled (filled_entry env cid order res) s.redis
        else c.xadd stream_rejected (rejected_entry env cid order outcome) s.redis in
      record s {
        redis = c.set (result_key key) (j.dumps (result_view res)) result_ttl_s sent;
        db = audit (audit_entry order outcome) db;
        processed = s.processed + 1;
      }

  abbrev pub settle :
      String
      → OrderRequest F
      → ExecutionConsumer F R T
      → Result (ExecOutcome F) × Executor F T
      → ExecutionConsumer F R T × Result (Unit {0})
  settle cid order s (raise e, ex) = (record s { executor = ex }, raise e)
  settle cid order s (ok outcome, ex) =
      (record_outcome cid order outcome (record s { executor = ex }), ok tt)

  -- After the insertion: a key that had a row is a duplicate.
  abbrev pub place :
      String
      → OrderRequest F
      → ExecutionConsumer F R T
      → Result (Bool × ExecutionDatabase F)
      → ExecutionConsumer F R T × Result (Unit {0})
  place cid order s (raise e) = (s, raise e)
  place cid order s (ok (false, db)) =
      (record s { duplicates_suppressed = s.duplicates_suppressed + 1 }, ok tt)
  place cid order s (ok (true, db)) =
      settle cid order (record s { db = db }) (execute env.clock s.executor order)

  -- The cached result is read once more for the log line.
  abbrev pub suppress :
      Result (Dict (JsonValue F))
      → ExecutionConsumer F R T
      → ExecutionConsumer F R T × Result (Unit {0})
  suppress (raise e) s = (record s { duplicates_suppressed = s.duplicates_suppressed + 1 }, raise e)
  suppress (ok _) s = (record s { duplicates_suppressed = s.duplicates_suppressed + 1 }, ok tt)

  abbrev pub after_cache :
      String
      → OrderRequest F
      → ExecutionConsumer F R T
      → Option String
      → ExecutionConsumer F R T × Result (Unit {0})
  after_cache cid order s (some cached) = suppress (j.loads cached) s
  after_cache cid order s none = place cid order s (insert_pending order s.db)

  abbrev pub respond :
      String
      → ExecutionConsumer F R T
      → Result (Option (OrderRequest F))
      → ExecutionConsumer F R T × Result (Unit {0})
  respond cid s (raise e) = (s, raise e)
  respond cid s (ok none) = (s, ok tt)
  respond cid s (ok (some order)) =
      after_cache cid order s (c.get (result_key order.idempotency_key) s.redis)

  unfoldable pub handle :
      Dict String → ExecutionConsumer F R T → ExecutionConsumer F R T × Result (Unit {0})
  handle decoded s =
      respond (get_or_create_correlation_id env.fresh_id decoded) s (parse_order env decoded)

  -- The loop of `drain` over one batch: the state, the messages acknowledged, and the exception that
  -- ended the batch, if one did.
  unfoldable pub handle_all :
      List Message
      → ExecutionConsumer F R T
      → ExecutionConsumer F R T × List String × Result (Unit {0})
  handle_all [] s = (s, [], ok tt)
  handle_all ((id, fields) ∷ messages) s =
      let handled = handle fields s in
      let rest = handle_all messages handled.0 in
      elim handled.1 [ raise e ↦ (handled.0, [], raise e) | ok _ ↦ (rest.0, id ∷ rest.1, rest.2) ]
