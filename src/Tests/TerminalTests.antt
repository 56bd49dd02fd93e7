-- ===== src/Tests/TerminalTests.antt =====
-- A terminal that logs in at the second round, and a backfill of three bars in pages of two.
use vix_75_platform.Base.{
  ℕ, zero, suc, ◌≡◌, refl, true, false, none, some, List, [], ◌∷◌, arith, ltb, ◌==◌, if◌then◌else◌,
}
use vix_75_platform.Base.Dict.{text_eq}
use vix_75_platform.Base.Int.{ℤ, pos}
use vix_75_platform.Base.Result.{ok}
use vix_75_platform.Schemas.{Bar}
use vix_75_platform.Mt5.{Rate, Mt5Package, Mt5Client, attempt_connect, connect}
use vix_75_platform.DataService.Ingest.{upsert_bars}
use vix_75_platform.DataService.Backfill.{
  History, BackfillState, iter_history_chunks, backfill_timeframe,
}
use vix_75_platform.DataService.Backfill.Stored.{
  EndsBy, AllStored, backfill_timeframe-AllStored, backfill_timeframe-keeps,
}
use vix_75_platform.Tests.Decimal.{decimal}

-- The state counts the failures to come.
instance abbrev mt5_package : Mt5Package ℤ ℕ
mt5_package = record {
  initialize = λ _ t. (true, t);
  login = λ _ _ _ t. (t == 0, t);
  shutdown = λ t. elim t [ zero ↦ 0 | suc n ↦ n ];
  last_error = λ _. "";
  copy_rates_from_pos = λ _ _ _ _ _. none;
  symbol_info = λ _ _. none;
  symbol_info_tick = λ _ _. none;
  has_account = λ _. false;
  order_calc_margin = λ _ _ _ _. none;
}

abbrev client : Mt5Client ℤ ℕ
client = record {
  settings = record {
    mt5_terminal_path = none;
    mt5_login = 75;
    mt5_password = "p";
    mt5_server = "s";
  };
  terminal = some 1;
  connected = false;
  sleeps = [];
}

one_pause : (connect 3 (pos 200) client).1.sleeps ≡ pos 200 ∷ []
unfolding connect attempt_connect text_eq
one_pause = refl

abbrev rate : ℕ → Rate ℤ
rate t = record {
  time = t;
  open_price = pos 0;
  high = pos 0;
  low = pos 0;
  close = pos t;
  tick_volume = 1;
}

abbrev history : History ℤ
history = record {
  copy_rates_from_pos = λ _ _ start _.
      if start == 0
      then some (rate 200 ∷ rate 300 ∷ [])
      else if ltb start 3
      then some (rate 100 ∷ [])
      else none;
  now = 1000;
}

abbrev start : BackfillState ℤ
start = record { rows = []; audited = [] }

ends : EndsBy history "V75" 1 2 3
ends n h oldest rates = ground arith

backfill_timeframe-AllStored_example :
    (chunks : List (List (Rate ℤ))) × (n : ℕ) × (s' : BackfillState ℤ) × (iter_history_chunks 4
        history "V75" "M1" 1 2
      ≡ ok chunks)
    × (backfill_timeframe 4 history "V75" "M1" 1 2 start ≡ ok (n, s'))
    × AllStored "V75" "M1" s'.rows chunks
unfolding text_eq
backfill_timeframe-AllStored_example =
    backfill_timeframe-AllStored history "V75" "M1" 1 1 2 3 3 start refl ends (omega arith)

-- The bar of 300, which closes higher later.
abbrev closed : Bar ℤ
closed = record {
  ts = 300;
  open_price = pos 0;
  high = pos 900;
  low = pos 0;
  close = pos 900;
  tick_volume = 9;
}

backfill_timeframe-keeps_example :
    (n : ℕ) × (s' : BackfillState ℤ) × (backfill_timeframe 4 history "V75" "M1" 1 2 start
      ≡ ok (n, s'))
    × (upsert_bars "V75" "M1" (closed ∷ []) s'.rows ≡ s'.rows)
unfolding text_eq
backfill_timeframe-keeps_example =
    backfill_timeframe-keeps history "V75" "M1" 1 1 2 3 3 start (rate 200) (rate 300 ∷ []) closed
      refl ends (omega arith) refl refl
