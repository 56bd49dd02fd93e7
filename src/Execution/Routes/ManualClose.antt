-- ===== src/Execution/Routes/ManualClose.antt =====
-- A trade that services/execution-service/app/routes.py closes, through the sweeps that follow.
use vix_75_platform.Base.{
  ℕ, ◌≡◌, refl, String, Bool, true, false, Option, none, some, List, [], ◌∷◌, arith,
}
use vix_75_platform.Base.Dict.{Dict, lookup}
use vix_75_platform.Base.Result.{Result, ok, raise}
use vix_75_platform.Float.{Float, nought}
use vix_75_platform.Redis.{Redis}
use vix_75_platform.Execution.Executor.{Terminal, ExecOutcome, Executor}
use vix_75_platform.Execution.Executor.Close.{ClosingTerminal, close_position}
use vix_75_platform.Execution.Trades.{Trade, ExecutionDatabase}
use vix_75_platform.Execution.Trades.Closing.{
  closable, close_row, close_rows, close_by_ticket, trade_by_ticket,
}
use vix_75_platform.Execution.Reconciliation.{TerminalView, SweepEnv, Reconciler, run_once}
use vix_75_platform.Execution.Reconciliation.Spared.{run_once_spares}
use vix_75_platform.Execution.Routes.{
  RoutesState, closed, manual_source, conclude, answer, close_trade, close,
}

module _ {F : Type 0} where
  lookup-close_rows :
      (k : String) (t : ℕ) (f : Trade F → Trade F) (row : Trade F) (rows : Dict (Trade F))
      → lookup k rows ≡ some row
      → closable t row ≡ true
      → lookup k (close_rows t f rows) ≡ some (f row)
  lookup-close_rows k t f row [] h e = absurd (cc)
  lookup-close_rows k t f row ((j, x) ∷ rows) h e = ground (arith, lookup-close_rows k t f row rows)

module _ {F : Type 0} ⦃d : Float F⦄ where
  -- The row is closed for good with a profit of zero.
  pub record IsWrittenOff (k now : String) (db : ExecutionDatabase F) : Type 0 where
    pub row : Trade F
    pub found : lookup k db.trades ≡ some row
    pub closed_at : row.closed_at ≡ some now
    pub profit : row.profit ≡ some nought

  conclude-IsWrittenOff :
      (k now : String) (ticket : ℕ) (price : Option F) (outcome : ExecOutcome F) (accepted : Bool)
      (row : Trade F) (db : ExecutionDatabase F)
      → outcome.result.accepted ≡ accepted
      → lookup k db.trades ≡ some row
      → closable ticket row ≡ true
      → (conclude ticket now outcome db).0 ≡ closed ticket price
      → IsWrittenOff k now (conclude ticket now outcome db).1
  unfolding conclude close_by_ticket
  conclude-IsWrittenOff k now ticket price outcome false row db e hr hc h =
      let refused = rw (e, conclude) at h in absurd (cc)
  conclude-IsWrittenOff k now ticket price outcome true row db e hr hc h =
      rw (e, conclude)
        (record {
          row = close_row now nought outcome.result.price manual_source row;
          found = lookup-close_rows k ticket _ row db.trades hr hc;
          closed_at = refl;
          profit = refl;
        })

  answer-IsWrittenOff :
      {T : Type 0} (k now : String) (ticket : ℕ) (price : Option F) (row : Trade F)
      (db : ExecutionDatabase F) (outcome : Result (ExecOutcome F)) (executor : Executor F T)
      → lookup k db.trades ≡ some row
      → closable ticket row ≡ true
      → (answer ticket now db outcome executor).0 ≡ closed ticket price
      → IsWrittenOff k now (answer ticket now db outcome executor).1.db
  answer-IsWrittenOff k now ticket price row db (raise e) executor hr hc h = absurd (cc)
  answer-IsWrittenOff k now ticket price row db (ok outcome) executor hr hc h =
      conclude-IsWrittenOff k now ticket price outcome outcome.result.accepted row db refl hr hc h

  -- The sweeps that follow, one after the other.
  abbrev pub run_all :
      {R : Type 0} ⦃c : Redis R⦄
      → List (SweepEnv × Option (TerminalView F))
      → Reconciler F R
      → Reconciler F R
  run_all [] s = s
  run_all ((env, view) ∷ sweeps) s = run_all sweeps (run_once env view s).0

  run_once-IsWrittenOff :
      {R : Type 0} ⦃c : Redis R⦄ (k now : String) (env : SweepEnv) (view : Option (TerminalView F))
      (s : Reconciler F R)
      → IsWrittenOff k now s.db
      → IsWrittenOff k now (run_once env view s).0.db
  unfolding run_once
  run_once-IsWrittenOff k now env none s w = w
  run_once-IsWrittenOff k now env (some view) s w = record {
    row = w.row;
    found = run_once_spares env view k w.row s w.found (rw w.closed_at refl);
    closed_at = w.closed_at;
    profit = w.profit;
  }

  run_all-IsWrittenOff :
      {R : Type 0} ⦃c : Redis R⦄ (k now : String)
      (sweeps : List (SweepEnv × Option (TerminalView F))) (s : Reconciler F R)
      → IsWrittenOff k now s.db
      → IsWrittenOff k now (run_all sweeps s).db
  run_all-IsWrittenOff k now [] s w = w
  run_all-IsWrittenOff k now ((env, view) ∷ sweeps) s w =
      run_all-IsWrittenOff k now sweeps _ (run_once-IsWrittenOff k now env view s w)

module _ {F T : Type 0} ⦃d : Float F⦄ ⦃m : Terminal F T⦄ ⦃q : ClosingTerminal F T⦄ where
  close_trade-IsWrittenOff :
      (k now : String) (ticket : ℕ) (price : Option F) (row : Trade F)
      (found : Option (String × Trade F)) (s : RoutesState F T)
      → lookup k s.db.trades ≡ some row
      → closable ticket row ≡ true
      → (close_trade ticket now found s).0 ≡ closed ticket price
      → IsWrittenOff k now (close_trade ticket now found s).1.db
  close_trade-IsWrittenOff k now ticket price row none s hr hc h = absurd (cc)
  close_trade-IsWrittenOff k now ticket price row (some (i, trade)) s hr hc h =
      let x = close_position trade.symbol ticket trade.lots s.executor in
      answer-IsWrittenOff k now ticket price row s.db x.0 x.1 hr hc h

  -- If the close route answers that a ticket is closed, the row under a key that is open with this
  -- ticket is, after any sweeps over any answers of the terminal, still the one that was closed at
  -- that time with a profit of zero.
  pub close-IsWrittenOff :
      {R : Type 0} ⦃c : Redis R⦄ (k now : String) (ticket : ℕ) (price : Option F) (row : Trade F)
      (s : RoutesState F T) (symbol : String) (redis : R)
      (sweeps : List (SweepEnv × Option (TerminalView F)))
      → lookup k s.db.trades ≡ some row
      → closable ticket row ≡ true
      → (close ticket now s).0 ≡ closed ticket price
      → let after : Reconciler F R = record {
        symbol = symbol;
        db = (close ticket now s).1.db;
        redis = redis;
      } in
        IsWrittenOff k now (run_all sweeps after).db
  unfolding close
  close-IsWrittenOff k now ticket price row s symbol redis sweeps hr hc h =
      run_all-IsWrittenOff k now sweeps _
        (close_trade-IsWrittenOff k now ticket price row (trade_by_ticket ticket s.db) s hr hc h)
