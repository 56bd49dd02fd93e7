-- ===== src/Execution/Trades/Closing.antt =====
-- The open trades of services/execution-service/app/db.py, and how they are closed.
use vix_75_platform.Base.{
  ℕ, ◌+◌, String, Bool, true, false, ◌&&◌, Option, none, some, [], ◌∷◌, ◌++◌, ◌==◌, if◌then◌else◌,
}
use vix_75_platform.Base.Dict.{Dict, merge}
use vix_75_platform.Json.{JsonValue, null, num}
use vix_75_platform.Execution.Trades.{Trade, TradeStatus, filled, ExecutionDatabase}

-- `broker_ticket = ticket`, which NULL does not meet
abbrev pub has_ticket : ℕ → Option ℕ → Bool
has_ticket ticket none = false
has_ticket ticket (some t) = t == ticket

-- `closed_at IS NULL`
abbrev pub is_null : Option String → Bool
is_null none = true
is_null (some _) = false

abbrev pub is_filled : TradeStatus → Bool
is_filled filled = true
is_filled _ = false

module _ {F : Type 0} where
  -- The `WHERE` clause of `_CLOSE_SQL`.
  abbrev pub closable : ℕ → Trade F → Bool
  closable ticket row = has_ticket ticket row.broker_ticket && is_null row.closed_at

  abbrev pub optional_num : Option F → JsonValue F
  optional_num none = null
  optional_num (some x) = num x

  abbrev pub close_row : String → F → Option F → Dict (JsonValue F) → Trade F → Trade F
  close_row now profit exit_price extra row = record row {
    closed_at = some now;
    profit = some profit;
    raw_response =
        merge row.raw_response (merge (("exit_price", optional_num exit_price) ∷ []) extra);
  }

  abbrev pub close_rows : ℕ → (Trade F → Trade F) → Dict (Trade F) → Dict (Trade F)
  close_rows ticket f [] = []
  close_rows ticket f ((k, row) ∷ rows) =
      (k, (if closable ticket row then f row else row)) ∷ close_rows ticket f rows

  -- `cur.rowcount`
  abbrev pub row_count : ℕ → Dict (Trade F) → ℕ
  row_count ticket [] = 0
  row_count ticket ((k, row) ∷ rows) =
      if closable ticket row then 1 + row_count ticket rows else row_count ticket rows

  -- Whether exactly one row was closed, and the table after it.
  unfoldable pub close_by_ticket :
      ℕ
      → String
      → F
      → Option F
      → Dict (JsonValue F)
      → ExecutionDatabase F
      → Bool × ExecutionDatabase F
  close_by_ticket ticket now profit exit_price extra db = (
    row_count ticket db.trades == 1,
    record db { trades = close_rows ticket (close_row now profit exit_price extra) db.trades },
  )

  abbrev pub is_open : Trade F → Bool
  is_open row = is_filled row.status && is_null row.closed_at

  -- The newest first: a row keeps the place at which it was inserted, at `requested_at`.
  abbrev pub newest_first : Dict (Trade F) → Dict (Trade F)
  newest_first [] = []
  newest_first ((k, row) ∷ rows) =
      let rest = newest_first rows in if is_open row then rest ++ ((k, row) ∷ []) else rest

  unfoldable pub open_trades : ExecutionDatabase F → Dict (Trade F)
  open_trades db = newest_first db.trades

  abbrev first_closable : ℕ → Dict (Trade F) → Option (String × Trade F)
  first_closable ticket [] = none
  first_closable ticket ((k, row) ∷ rows) =
      if closable ticket row then some (k, row) else first_closable ticket rows

  unfoldable pub trade_by_ticket : ℕ → ExecutionDatabase F → Option (String × Trade F)
  trade_by_ticket ticket db = first_closable ticket db.trades
