-- ===== src/Tests/ReconciliationTests.antt =====
-- Sweeps over two filled trades, one of which the terminal has closed.
use vix_75_platform.Base.{◌≡◌, refl, false, none, some, [], ◌∷◌, ℕ, length}
use vix_75_platform.Base.Dict.{lookup, text_eq}
use vix_75_platform.Base.Int.{ℤ, pos}
use vix_75_platform.Schemas.{buy}
use vix_75_platform.Execution.Executor.{Terminal, describe_retcode}
use vix_75_platform.Execution.Executor.Attempts.{get_tick}
use vix_75_platform.Execution.Executor.Close.{ClosingTerminal, close_position, close_outcome}
use vix_75_platform.Execution.Trades.{Trade, filled}
use vix_75_platform.Execution.Trades.Closing.{close_by_ticket, open_trades, trade_by_ticket}
use vix_75_platform.Execution.Reconciliation.{
  TerminalView, SweepEnv, Reconciler, swept, orphans_of, local_tickets, mt5_tickets,
  summarise_close, sweep, run_once,
}
use vix_75_platform.Execution.Reconciliation.Settled.{run_once_again}
use vix_75_platform.Execution.Reconciliation.Spared.{run_once_spares}
use vix_75_platform.Execution.Routes.{RoutesState, closed, conclude, close}
use vix_75_platform.Execution.Routes.ManualClose.{IsWrittenOff, run_all, close-IsWrittenOff}
use vix_75_platform.Tests.Decimal.{decimal}
use vix_75_platform.Tests.Store.{Keyspace, empty, keyspace_redis}

abbrev trade : ℕ → Trade ℤ
trade ticket = record {
  signal_id = "s";
  symbol = "V75";
  side = buy;
  lots = pos 50;
  entry_price = pos 50000;
  sl_price = pos 49000;
  tp_price = pos 52000;
  status = filled;
  retcode = some 10009;
  retcode_desc = none;
  broker_ticket = some ticket;
  executed_at = some "t";
  closed_at = none;
  profit = none;
  raw_response = [];
}

abbrev state : Reconciler ℤ Keyspace
state = record {
  symbol = "V75";
  db = record { trades = ("k1", trade 7) ∷ ("k2", trade 8) ∷ []; audit_log = [] };
  redis = empty;
}

-- The position 8 and an orphan are open, and 7 has a closing deal.
abbrev view : TerminalView ℤ
view = record {
  positions =
      some (record { ticket = 8; symbol = some "V75" } ∷ record { ticket = 9; symbol = none } ∷ []);
  deals = λ _. some (
      record {
        entry = some 1;
        volume = some (pos 50);
        price = some (pos 51000);
        profit = some (pos 500);
      }
      ∷ []);
}

abbrev env : SweepEnv
env = record { now = "now"; fresh_id = λ _. "c" }

first_sweep : (run_once env (some view) state).1 ≡ swept 1 1
unfolding run_once sweep local_tickets mt5_tickets open_trades summarise_close close_by_ticket
    text_eq
first_sweep = refl

run_once_again_example :
    let s' = (run_once env (some view) state).0 in
    run_once env (some view) s' ≡ (s', swept (length (orphans_of view s')) 0)
run_once_again_example = run_once_again view env env state

run_once_spares_example : lookup "k2" (run_once env (some view) state).0.db.trades ≡ some (trade 8)
unfolding mt5_tickets text_eq
run_once_spares_example = run_once_spares env view "k2" (trade 8) state refl refl

-- A terminal that closes every position at once.
instance abbrev terminal : Terminal ℤ ℕ
terminal = record {
  symbol_info_tick = λ _ _. some (record { bid = pos 49990; ask = pos 50010 });
  order_send = λ _ t. (none, t);
  last_error = λ _. "";
}

instance abbrev closing : ClosingTerminal ℤ ℕ
closing = record {
  positions_get = λ _ _. some (buy ∷ []);
  send_close =
      λ _ t. (some (record { retcode = 10009; order = 7; price = pos 50010; comment = "" }), t);
}

abbrev routes : RoutesState ℤ ℕ
routes = record {
  db = state.db;
  executor = record {
    terminal = some 0;
    dry_run_mode = false;
    magic = 75;
    backoff_base_s = pos 50;
    sends = [];
    sleeps = [];
  };
}

closes : (close 7 "now" routes).0 ≡ closed 7 (some (pos 50010))
unfolding close trade_by_ticket close_position close_outcome get_tick conclude describe_retcode
closes = refl

-- Two sweeps later the profit is still zero.
close-IsWrittenOff_example :
    IsWrittenOff {F = ℤ} "k1" "now"
      (run_all
        ((env, some view) ∷ (env, some view) ∷ [])
        (record { symbol = "V75"; db = (close 7 "now" routes).1.db; redis = empty })).db
unfolding text_eq
close-IsWrittenOff_example =
    close-IsWrittenOff "k1" "now" 7 (some (pos 50010)) (trade 7) routes "V75" empty
      ((env, some view) ∷ (env, some view) ∷ []) refl refl closes
