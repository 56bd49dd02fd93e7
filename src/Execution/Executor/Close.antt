-- ===== src/Execution/Executor/Close.antt =====
-- `close_position` of services/execution-service/app/mt5_executor.py: one deal against a position.
use vix_75_platform.Base.{
  ℕ, String, false, Option, none, some, List, [], ◌∷◌, ◌==◌, format, if◌then◌else◌,
}
use vix_75_platform.Base.Int.{pos}
use vix_75_platform.Base.Result.{Result, ok, raise, assertion_error}
use vix_75_platform.Float.{Float}
use vix_75_platform.Schemas.{Direction, buy, sell, OrderResult}
use vix_75_platform.Execution.Executor.{
  Tick, SendResult, Terminal, ExecOutcome, Executor, retcode_done, describe_retcode,
}
use vix_75_platform.Execution.Executor.Attempts.{get_tick}

-- The fields of the dict that depend on the position.
pub record CloseRequest (F : Type 0) : Type 0 where
  pub symbol : String
  pub volume : F
  pub kind : Direction
  pub position : ℕ
  pub price : F
  pub magic : ℕ
  pub comment : String

-- The calls of the package that only a close makes: the sides of the positions with a ticket, and
-- `order_send` of a close.
pub record ClosingTerminal (F T : Type 0) : Type 0 where
  pub positions_get : ℕ → T → Option (List Direction)
  pub send_close : CloseRequest F → T → Option (SendResult F) × T

-- `int(result.order or ticket)`
abbrev pub order_or : ℕ → ℕ → ℕ
order_or order ticket = if order == 0 then ticket else order

abbrev pub opposite : Direction → Direction
opposite buy = sell
opposite sell = buy

-- `f"close:{ticket}"`
abbrev pub close_key : (F : Type 0) ⦃d : Float F⦄ → ℕ → String
close_key F ⦃d⦄ ticket = format ("close:" ∷ d.show_int (pos ticket) ∷ [])

module _ {F : Type 0} ⦃d : Float F⦄ where
  abbrev pub one_attempt : OrderResult F → ExecOutcome F
  one_attempt result = record {
    result = result;
    attempts = 1;
    retryable_gave_up = false;
    last_error = none;
  }

  abbrev pub not_closed : ℕ → String → ExecOutcome F
  not_closed ticket desc = one_attempt (record {
    idempotency_key = close_key F ticket;
    accepted = false;
    retcode = none;
    retcode_description = some desc;
    ticket = none;
    price = none;
  })

  unfoldable pub close_outcome : ℕ → String → Option (SendResult F) → ExecOutcome F
  close_outcome ticket error none = not_closed ticket (format ("ORDER_SEND_NONE:" ∷ error ∷ []))
  close_outcome ticket error (some r) = one_attempt (record {
    idempotency_key = close_key F ticket;
    accepted = r.retcode == retcode_done;
    retcode = some r.retcode;
    retcode_description = some (describe_retcode d.show_int r.retcode r.comment);
    ticket = some (order_or r.order ticket);
    price = some r.price;
  })

  -- `tick.bid if is_buy else tick.ask`
  abbrev pub exit_price : Direction → Tick F → F
  exit_price buy tick = tick.bid
  exit_price sell tick = tick.ask

  abbrev pub close_request : ℕ → String → ℕ → F → Direction → Tick F → CloseRequest F
  close_request magic symbol ticket volume side tick = record {
    symbol = symbol;
    volume = volume;
    kind = opposite side;
    position = ticket;
    price = exit_price side tick;
    magic = magic;
    comment = format ("vix75-close:" ∷ d.show_int (pos ticket) ∷ []);
  }

module _ {F T : Type 0} ⦃d : Float F⦄ ⦃m : Terminal F T⦄ ⦃q : ClosingTerminal F T⦄ where
  -- The first position with the ticket, if there is one.
  abbrev pub close_first :
      ℕ → String → ℕ → F → Option (List Direction) → T → Result (ExecOutcome F) × T
  close_first magic symbol ticket volume (some (side ∷ _)) t = elim (get_tick symbol t) [
    | raise e ↦ (raise e, t)
    | ok tick ↦
        let (sent, t') = q.send_close (close_request magic symbol ticket volume side tick) t in
        (ok (close_outcome ticket (m.last_error t') sent), t')
  ]
  close_first magic symbol ticket volume none t = (ok (not_closed ticket "POSITION_NOT_FOUND"), t)
  close_first magic symbol ticket volume (some []) t =
      (ok (not_closed ticket "POSITION_NOT_FOUND"), t)

  unfoldable pub close_position :
      String → ℕ → F → Executor F T → Result (ExecOutcome F) × Executor F T
  close_position symbol ticket volume ex = elim ex.terminal [
    | none ↦ (raise assertion_error, ex)
    | some t ↦
        let (outcome, t') =
          close_first ex.magic symbol ticket volume (q.positions_get ticket t) t in
        (outcome, record ex { terminal = some t' })
  ]
