-- ===== src/Execution/Routes.antt =====
-- services/execution-service/app/routes.py: the list of open trades, and the close of one by hand. The
-- health route is left out.
pub mod ManualClose
use vix_75_platform.Base.{
  ℕ, ◌≡◌, String, Bool, true, false, Option, none, some, List, [], ◌∷◌, length, if◌then◌else◌,
}
use vix_75_platform.Base.Dict.{Dict, text_eq}
use vix_75_platform.Base.Int.{pos}
use vix_75_platform.Base.Result.{Exception, Result, ok, raise}
use vix_75_platform.Float.{Float, nought}
use vix_75_platform.Json.{JsonValue, bool, num, text, null}
use vix_75_platform.Schemas.{OrderResult}
use vix_75_platform.Execution.Executor.{Terminal, Executor, ExecOutcome}
use vix_75_platform.Execution.Executor.Close.{ClosingTerminal, close_position}
use vix_75_platform.Execution.Trades.{Trade, ExecutionDatabase, AuditEntry, audit}
use vix_75_platform.Execution.Trades.Closing.{
  open_trades, trade_by_ticket, close_by_ticket, optional_num,
}

pub record RoutesState (F T : Type 0) : Type 0 where
  pub db : ExecutionDatabase F
  pub executor : Executor F T

-- The answer of a request: a body, an `HTTPException` with its status, or an exception of the code.
pub data Response (F : Type 0) : Type 0 where
  closed : ℕ → Option F → Response F
  http_error : ℕ → Option ℕ → Option String → Response F
  failed : Exception → Response F

module _ {F : Type 0} where
  -- `{"count": len(rows), "positions": rows}`
  unfoldable pub positions : ExecutionDatabase F → ℕ × Dict (Trade F)
  positions db = let rows = open_trades db in (length rows, rows)

module _ {F : Type 0} ⦃d : Float F⦄ where
  abbrev pub optional_int : Option ℕ → JsonValue F
  optional_int none = null
  optional_int (some n) = num (d.of_int (pos n))

  abbrev pub optional_text : Option String → JsonValue F
  optional_text none = null
  optional_text (some s) = text s

  -- `outcome.last_error or outcome.result.retcode_description`
  abbrev pub error_of : ExecOutcome F → Option String
  error_of outcome = elim outcome.last_error [
    | none ↦ outcome.result.retcode_description
    | some e ↦ if text_eq e "" then outcome.result.retcode_description else some e
  ]

  abbrev pub refused_entry : ℕ → ExecOutcome F → AuditEntry F
  refused_entry ticket outcome = record {
    actor = "execution-service";
    action = "position.close";
    subject = d.show_int (pos ticket);
    outcome = "error";
    payload =
        ("accepted", bool outcome.result.accepted)
        ∷ ("retcode", optional_int outcome.result.retcode)
        ∷ ("retcode_description", optional_text outcome.result.retcode_description)
        ∷ ("price", optional_num outcome.result.price)
        ∷ [];
    error = error_of outcome;
  }

  abbrev pub manual_source : Dict (JsonValue F)
  manual_source = ("source", text "manual_close") ∷ []

  -- What follows the outcome of the executor. The profit is zero, whatever the deal made.
  unfoldable pub conclude :
      ℕ → String → ExecOutcome F → ExecutionDatabase F → Response F × ExecutionDatabase F
  conclude ticket now outcome db =
      if outcome.result.accepted
      then (
        closed ticket outcome.result.price,
        (close_by_ticket ticket now nought outcome.result.price manual_source db).1,
      )
      else (
        http_error 502 outcome.result.retcode outcome.result.retcode_description,
        audit (refused_entry ticket outcome) db,
      )

module _ {F T : Type 0} ⦃d : Float F⦄ where
  abbrev pub answer :
      ℕ
      → String
      → ExecutionDatabase F
      → Result (ExecOutcome F)
      → Executor F T
      → Response F × RoutesState F T
  answer ticket now db (raise e) executor = (failed e, record { db = db; executor = executor })
  answer ticket now db (ok outcome) executor =
      let (response, db') = conclude ticket now outcome db in
      (response, record { db = db'; executor = executor })

module _ {F T : Type 0} ⦃d : Float F⦄ ⦃m : Terminal F T⦄ ⦃q : ClosingTerminal F T⦄ where
  abbrev pub close_trade :
      ℕ → String → Option (String × Trade F) → RoutesState F T → Response F × RoutesState F T
  close_trade ticket now none s = (http_error 404 none none, s)
  close_trade ticket now (some (k, trade)) s =
      let (outcome, executor) = close_position trade.symbol ticket trade.lots s.executor in
      answer ticket now s.db outcome executor

  unfoldable pub close : ℕ → String → RoutesState F T → Response F × RoutesState F T
  close ticket now s = close_trade ticket now (trade_by_ticket ticket s.db) s
