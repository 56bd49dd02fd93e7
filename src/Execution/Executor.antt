-- ===== src/Execution/Executor.antt =====
-- services/execution-service/app/mt5_executor.py: one market order, sent at most three times. The MT5
-- package is an interface over a terminal state `T`; log lines are left out.
pub mod Attempts
pub mod Close
use vix_75_platform.Base.{
  ℕ, zero, suc, ◌+◌, String, Bool, true, false, ◌||◌, Option, none, some, List, [], ◌∷◌, ◌++◌, ◌==◌,
  format, if◌then◌else◌, any,
}
use vix_75_platform.Base.Dict.{text_eq}
use vix_75_platform.Base.Int.{ℤ, pos}
use vix_75_platform.Base.Result.{Result, ok, raise, runtime_error, assertion_error, ◌>>=◌}
use vix_75_platform.Float.{Float}
use vix_75_platform.Schemas.{Direction, buy, sell, OrderRequest, OrderResult}

pub record Tick (F : Type 0) : Type 0 where
  pub bid : F
  pub ask : F

-- The fields of the dict that `order_send` takes which depend on the order.
pub record Request (F : Type 0) : Type 0 where
  pub symbol : String
  pub volume : F
  pub kind : Direction
  pub price : F
  pub sl : F
  pub tp : F
  pub deviation : ℕ
  pub magic : ℕ
  pub comment : String

pub record SendResult (F : Type 0) : Type 0 where
  pub retcode : ℕ
  pub order : ℕ
  pub price : F
  pub comment : String

pub record Terminal (F T : Type 0) : Type 0 where
  pub symbol_info_tick : String → T → Option (Tick F)
  pub order_send : Request F → T → Option (SendResult F) × T
  pub last_error : T → String

abbrev pub retcode_done : ℕ
retcode_done = 10009

abbrev pub retcode_done_partial : ℕ
retcode_done_partial = 10010

abbrev pub retryable_retcodes : List ℕ
retryable_retcodes = 10004 ∷ 10020 ∷ 10021 ∷ 10012 ∷ 10018 ∷ []

abbrev pub max_attempts : ℕ
max_attempts = 3

pub record ExecOutcome (F : Type 0) : Type 0 where
  pub result : OrderResult F
  pub attempts : ℕ
  pub retryable_gave_up : Bool
  pub last_error : Option String

-- The fields of `MT5Executor` and of its settings. `sends` are the requests sent, `sleeps` the
-- pauses, both newest last; `terminal` is `none` where the package is missing.
pub record Executor (F T : Type 0) : Type 0 where
  pub terminal : Option T
  pub dry_run_mode : Bool
  pub magic : ℕ
  pub backoff_base_s : F
  pub sends : List (Request F)
  pub sleeps : List F

-- `_DESCRIPTIONS.get(retcode)`
abbrev pub description : ℕ → Option String
description c =
    if c == 10004
    then some "REQUOTE"
    else if c == 10006
    then some "REJECT"
    else if c == 10009
    then some "DONE"
    else if c == 10010
    then some "DONE_PARTIAL"
    else if c == 10012
    then some "TIMEOUT"
    else if c == 10013
    then some "INVALID_REQUEST"
    else if c == 10014
    then some "INVALID_VOLUME"
    else if c == 10015
    then some "INVALID_PRICE"
    else if c == 10016
    then some "INVALID_STOPS"
    else if c == 10017
    then some "TRADE_DISABLED"
    else if c == 10018
    then some "MARKET_CLOSED"
    else if c == 10019
    then some "NO_MONEY"
    else if c == 10020
    then some "PRICE_CHANGED"
    else if c == 10021
    then some "PRICE_OFF"
    else none

-- `retcode in (DONE, DONE_PARTIAL)` and `retcode in RETRYABLE_RETCODES`
unfoldable pub is_done : ℕ → Bool
is_done c = c == retcode_done || c == retcode_done_partial

unfoldable pub is_retryable : ℕ → Bool
is_retryable c = any (λ r. r == c) retryable_retcodes

unfoldable pub describe_retcode : (ℤ → String) → ℕ → String → String
describe_retcode show_int c comment =
    let base : String = elim (description c) [
      | some s ↦ s
      | none ↦ format ("RETCODE_" ∷ show_int (pos c) ∷ [])
    ] in
    if text_eq comment "" then base else format (base ∷ ":" ∷ comment ∷ [])

module _ {F : Type 0} where
  abbrev pub rejection : OrderRequest F → Option ℕ → String → OrderResult F
  rejection order retcode desc = record {
    idempotency_key = order.idempotency_key;
    accepted = false;
    retcode = retcode;
    retcode_description = some desc;
    ticket = none;
    price = none;
  }

  abbrev pub fill : OrderRequest F → SendResult F → String → OrderResult F
  fill order r desc = record {
    idempotency_key = order.idempotency_key;
    accepted = true;
    retcode = some r.retcode;
    retcode_description = some desc;
    ticket = some r.order;
    price = some r.price;
  }

  -- `tick.ask if order.direction is Direction.BUY else tick.bid`
  abbrev pub side_price : Direction → Tick F → F
  side_price buy tick = tick.ask
  side_price sell tick = tick.bid
