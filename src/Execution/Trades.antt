-- ===== src/Execution/Trades.antt =====
-- The `trades` table of services/execution-service/app/db.py, by its unique key `idempotency_key`, and
-- the audit log. Lost connections are not modelled; the instants of SQL's `now()` are arguments.
pub mod Rows
pub mod Closing
use vix_75_platform.Base.{
  ℕ, String, Bool, true, false, Option, none, some, List, [], ◌∷◌, ◌++◌, if◌then◌else◌,
}
use vix_75_platform.Base.Dict.{Dict, lookup, insert, merge}
use vix_75_platform.Base.Result.{Result, ok, ◌>>=◌}
use vix_75_platform.Json.{JsonValue}
use vix_75_platform.Schemas.{Direction, OrderRequest}
use vix_75_platform.Schemas.Uuid.{uuid_from_hex}

pub data TradeStatus : Type 0 where
  pending submitted filled rejected cancelled : TradeStatus

-- The keys of `_SET_STATUS_SQL`: the statuses that `set_status` can write.
pub data StatusChange : Type 0 where
  to_submitted to_filled to_rejected to_cancelled : StatusChange

pub record Trade (F : Type 0) : Type 0 where
  pub signal_id : String
  pub symbol : String
  pub side : Direction
  pub lots : F
  pub entry_price : F
  pub sl_price : F
  pub tp_price : F
  pub status : TradeStatus
  pub retcode : Option ℕ
  pub retcode_desc : Option String
  pub broker_ticket : Option ℕ
  pub executed_at : Option String
  pub closed_at : Option String
  pub profit : Option F
  pub raw_response : Dict (JsonValue F)

pub record AuditEntry (F : Type 0) : Type 0 where
  pub actor : String
  pub action : String
  pub subject : String
  pub outcome : String
  pub payload : Dict (JsonValue F)
  pub error : Option String

pub record ExecutionDatabase (F : Type 0) : Type 0 where
  pub trades : Dict (Trade F)
  pub audit_log : List (AuditEntry F)

-- The arguments of `set_status` that it takes by name.
pub record StatusUpdate (F : Type 0) : Type 0 where
  pub retcode : Option ℕ
  pub desc : Option String
  pub ticket : Option ℕ
  pub price : Option F
  pub extra : Dict (JsonValue F)

abbrev pub is_pending : TradeStatus → Bool
is_pending pending = true
is_pending _ = false

module _ {F : Type 0} where
  abbrev pub pending_row : OrderRequest F → String → Trade F
  pending_row order signal_id = record {
    signal_id = signal_id;
    symbol = order.symbol;
    side = order.direction;
    lots = order.lots;
    entry_price = order.entry;
    sl_price = order.sl;
    tp_price = order.tp;
    status = pending;
    retcode = none;
    retcode_desc = none;
    broker_ticket = none;
    executed_at = none;
    closed_at = none;
    profit = none;
    raw_response = [];
  }

  abbrev pub insert_row :
      OrderRequest F → String → Option (Trade F) → ExecutionDatabase F → Bool × ExecutionDatabase F
  insert_row order signal_id (some _) db = (false, db)
  insert_row order signal_id none db = (
    true,
    record db { trades = insert order.idempotency_key (pending_row order signal_id) db.trades },
  )

  -- `ON CONFLICT (idempotency_key) DO NOTHING`: whether a row was inserted.
  unfoldable pub insert_pending :
      OrderRequest F → ExecutionDatabase F → Result (Bool × ExecutionDatabase F)
  insert_pending order db = uuid_from_hex order.signal_id >>= λ signal_id.
      ok (insert_row order signal_id (lookup order.idempotency_key db.trades) db)

  -- The `SET` clauses of a status.
  abbrev pub set_row : StatusChange → String → StatusUpdate F → Trade F → Trade F
  set_row to_submitted now u row = record row {
    status = submitted;
    retcode = u.retcode;
    retcode_desc = u.desc;
    raw_response = merge row.raw_response u.extra;
  }
  set_row to_filled now u row = record row {
    status = filled;
    retcode = u.retcode;
    retcode_desc = u.desc;
    broker_ticket = u.ticket;
    entry_price = elim u.price [ some p ↦ p | none ↦ row.entry_price ];
    executed_at = some now;
    raw_response = merge row.raw_response u.extra;
  }
  set_row to_rejected now u row = record row {
    status = rejected;
    retcode = u.retcode;
    retcode_desc = u.desc;
    raw_response = merge row.raw_response u.extra;
  }
  set_row to_cancelled now u row =
      if is_pending row.status
      then record row { status = cancelled; retcode_desc = u.desc }
      else row

  unfoldable pub set_status :
      StatusChange → String → String → StatusUpdate F → ExecutionDatabase F → ExecutionDatabase F
  set_status change now key u db = elim (lookup key db.trades) [
    | none ↦ db
    | some row ↦ record db { trades = insert key (set_row change now u row) db.trades }
  ]

  unfoldable pub audit : AuditEntry F → ExecutionDatabase F → ExecutionDatabase F
  audit entry db = record db { audit_log = db.audit_log ++ (entry ∷ []) }
