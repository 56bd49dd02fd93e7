-- ===== src/Execution/Reconciliation.antt =====
-- services/execution-service/app/reconciliation.py: one sweep over the trades that are open here and
-- the positions of the terminal. Log lines are left out.
pub mod Settled
pub mod Spared
use vix_75_platform.Base.{
  ℕ, ◌+◌, String, Bool, true, false, not, ◌&&◌, Option, none, some, List, [], ◌∷◌, ◌==◌, ltb, any,
  filter, length, if◌then◌else◌,
}
use vix_75_platform.Base.Dict.{Dict, text_eq}
use vix_75_platform.Base.Int.{pos}
use vix_75_platform.Base.NumberMap.{NumberMap, put, has, minus}
use vix_75_platform.Correlation.{stream_fields}
use vix_75_platform.Float.{Float, nought}
use vix_75_platform.Json.{JsonValue, text}
use vix_75_platform.Redis.{Redis}
use vix_75_platform.Execution.Trades.{Trade, ExecutionDatabase}
use vix_75_platform.Execution.Trades.Closing.{open_trades, close_by_ticket}

abbrev pub stream_closed : String
stream_closed = "order.closed"

-- `mt5.DEAL_ENTRY_OUT`
abbrev pub deal_entry_out : ℕ
deal_entry_out = 1

-- A position; one without a symbol counts as one of the configured symbol.
pub record Position : Type 0 where
  pub ticket : ℕ
  pub symbol : Option String

pub record Deal (F : Type 0) : Type 0 where
  pub entry : Option ℕ
  pub volume : Option F
  pub price : Option F
  pub profit : Option F

-- What the terminal answers during a sweep: `positions_get()`, and `history_deals_get` over the last
-- seven days by ticket; `none` is an answer of `None`.
pub record TerminalView (F : Type 0) : Type 0 where
  pub positions : Option (List Position)
  pub deals : ℕ → Option (List (Deal F))

-- The clock, and the correlation id that is drawn for the entry of a ticket.
pub record SweepEnv : Type 0 where
  pub now : String
  pub fresh_id : ℕ → String

pub record Reconciler (F R : Type 0) : Type 0 where
  pub symbol : String
  pub db : ExecutionDatabase F
  pub redis : R

pub data Sweep : Type 0 where
  skipped : Sweep
  swept : (orphans ghosts_closed : ℕ) → Sweep

abbrev pub or_empty {ℓ} : {A : Type ℓ} → Option (List A) → List A
or_empty none = []
or_empty (some xs) = xs

-- `getattr(p, "symbol", symbol) == symbol`
abbrev pub of_symbol : String → Option String → Bool
of_symbol symbol none = true
of_symbol symbol (some s) = text_eq s symbol

abbrev pub by_ticket : String → List Position → NumberMap Position → NumberMap Position
by_ticket symbol [] m = m
by_ticket symbol (p ∷ ps) m =
    by_ticket symbol ps (if of_symbol symbol p.symbol then put p.ticket p m else m)

abbrev pub put_row {ℓ} : {V : Type ℓ} → Option ℕ → V → NumberMap V → NumberMap V
put_row none v m = m
put_row (some t) v m = put t v m

abbrev pub is_out : Option ℕ → Bool
is_out none = false
is_out (some entry) = entry == deal_entry_out

module _ {F : Type 0} where
  -- Of two rows with one ticket the later one stays.
  abbrev pub rows_by_ticket :
      Dict (Trade F) → NumberMap (String × Trade F) → NumberMap (String × Trade F)
  rows_by_ticket [] m = m
  rows_by_ticket ((k, row) ∷ rows) m = rows_by_ticket rows (put_row row.broker_ticket (k, row) m)

  unfoldable pub local_tickets : ExecutionDatabase F → NumberMap (String × Trade F)
  local_tickets db = rows_by_ticket (open_trades db) []

  unfoldable pub mt5_tickets : String → TerminalView F → NumberMap Position
  mt5_tickets symbol view = by_ticket symbol (or_empty view.positions) []

module _ {F : Type 0} ⦃d : Float F⦄ where
  -- `float(_deal_field(d, name, 0.0))`
  abbrev pub field_or_zero : Option F → F
  field_or_zero none = nought
  field_or_zero (some x) = x

  abbrev pub sum : F → (Deal F → F) → List (Deal F) → F
  sum acc f [] = acc
  sum acc f (x ∷ xs) = sum (d.add acc (f x)) f xs

  abbrev pub summary_of : List (Deal F) → Option (Option F × F)
  summary_of [] = none
  summary_of (x ∷ xs) =
      let total = sum nought (λ (y : Deal F). field_or_zero y.volume) (x ∷ xs) in
      let notional =
        sum nought (λ (y : Deal F). d.mul (field_or_zero y.volume) (field_or_zero y.price))
          (x ∷ xs) in
      let profit = sum nought (λ (y : Deal F). field_or_zero y.profit) (x ∷ xs) in
      some (if d.lt nought total then some (d.div notional total) else none, d.round profit 2)

  -- The exit price and the profit, once there is a deal that closes.
  unfoldable pub summarise_close : TerminalView F → ℕ → Option (Option F × F)
  summarise_close view ticket =
      summary_of (filter (λ (x : Deal F). is_out x.entry) (or_empty (view.deals ticket)))

  -- `exit_price or 0.0`
  abbrev pub or_zero : Option F → F
  or_zero none = nought
  or_zero (some x) = if d.le x nought && d.le nought x then nought else x

  unfoldable pub closed_entry :
      SweepEnv → String → ℕ → String × Trade F → Option F × F → Dict String
  closed_entry env symbol ticket (key, row) (exit_price, profit) =
      stream_fields (env.fresh_id ticket)
        (("signal_id", row.signal_id)
          ∷ ("idempotency_key", key)
          ∷ ("symbol", symbol)
          ∷ ("ticket", d.show_int (pos ticket))
          ∷ ("pnl", d.show profit)
          ∷ ("exit_price", d.show (or_zero exit_price))
          ∷ [])
        none

module _ {F R : Type 0} (view : TerminalView F) where
  -- Tickets that the terminal has not, and those that the table has not.
  abbrev pub ghosts_of : Reconciler F R → NumberMap (String × Trade F)
  ghosts_of s = minus (local_tickets s.db) (mt5_tickets s.symbol view)

  abbrev pub orphans_of : Reconciler F R → NumberMap Position
  orphans_of s = minus (mt5_tickets s.symbol view) (local_tickets s.db)

abbrev pub sweep_source : {F : Type 0} → Dict (JsonValue F)
sweep_source = ("source", text "reconciliation") ∷ []

module _ {F R : Type 0} ⦃c : Redis R⦄ where
  -- After the update of the table: one entry and one count more, if a row was closed.
  abbrev pub after_update :
      Bool → ExecutionDatabase F → Dict String → Reconciler F R × ℕ → Reconciler F R × ℕ
  after_update true db entry (s, closed) =
      (record s { db = db; redis = c.xadd stream_closed entry s.redis }, closed + 1)
  after_update false db entry (s, closed) = (record s { db = db }, closed)

module _ {F R : Type 0} ⦃d : Float F⦄ ⦃c : Redis R⦄ (env : SweepEnv) (view : TerminalView F) where
  -- A row whose ticket has left the terminal, and the number of rows closed so far.
  abbrev pub close_ghost :
      ℕ → String × Trade F → Option (Option F × F) → Reconciler F R × ℕ → Reconciler F R × ℕ
  close_ghost ticket row none (s, closed) = (s, closed)
  close_ghost ticket row (some (exit_price, profit)) (s, closed) =
      let (updated, db) = close_by_ticket ticket env.now profit exit_price sweep_source s.db in
      after_update updated db (closed_entry env s.symbol ticket row (exit_price, profit))
        (s, closed)

  abbrev pub close_ghosts : NumberMap (String × Trade F) → Reconciler F R × ℕ → Reconciler F R × ℕ
  close_ghosts [] acc = acc
  close_ghosts ((ticket, row) ∷ ghosts) acc =
      close_ghosts ghosts (close_ghost ticket row (summarise_close view ticket) acc)

  unfoldable pub sweep : Reconciler F R → Reconciler F R × Sweep
  sweep s =
      let (s', closed) = close_ghosts (ghosts_of view s) (s, 0) in
      (s', swept (length (orphans_of view s)) closed)

module _ {F R : Type 0} ⦃d : Float F⦄ ⦃c : Redis R⦄ where
  -- Without the package there is no terminal.
  unfoldable pub run_once :
      SweepEnv → Option (TerminalView F) → Reconciler F R → Reconciler F R × Sweep
  run_once env none s = (s, skipped)
  run_once env (some view) s = sweep env view s
