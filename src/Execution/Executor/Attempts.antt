-- ===== src/Execution/Executor/Attempts.antt =====
-- `build_request`, `execute_dry_run` and `execute` of services/execution-service/app/mt5_executor.py.
pub mod Retry
use vix_75_platform.Base.{
  ℕ, zero, suc, ◌+◌, String, Bool, true, false, not, Option, none, some, List, [], ◌∷◌, ◌++◌, ltb,
  cut, format, if◌then◌else◌,
}
use vix_75_platform.Base.Int.{pos}
use vix_75_platform.Base.Result.{Result, ok, raise, runtime_error, assertion_error, ◌>>=◌}
use vix_75_platform.Float.{Float, nought}
use vix_75_platform.Schemas.{Direction, OrderRequest, OrderResult}
use vix_75_platform.Execution.Executor.{
  Tick, Request, SendResult, Terminal, ExecOutcome, Executor, max_attempts, retcode_done, is_done,
  is_retryable, describe_retcode, rejection, fill, side_price,
}

-- A reply that ends the loop, or the texts of the last description and error.
pub data Verdict (F : Type 0) : Type 0 where
  final : ExecOutcome F → Verdict F
  again : String → String → Verdict F

module _ {F : Type 0} ⦃d : Float F⦄ where
  -- `price or tick price`: a price of zero counts as missing.
  abbrev pub deal_price : Option F → F → F
  deal_price none market = market
  deal_price (some p) market = if d.le p nought then (if d.le nought p then market else p) else p

  abbrev pub dry_fill : OrderRequest F → ℕ → F → ExecOutcome F
  dry_fill order ticket price = record {
    result = record {
      idempotency_key = order.idempotency_key;
      accepted = true;
      retcode = some retcode_done;
      retcode_description = some "DONE (dry_run)";
      ticket = some ticket;
      price = some price;
    };
    attempts = 0;
    retryable_gave_up = false;
    last_error = none;
  }

  unfoldable pub judge :
      OrderRequest F → ℕ → Option String → Option (SendResult F) → String → Verdict F
  judge order attempts last_error none error =
      again (format ("order_send returned None (" ∷ error ∷ ")" ∷ [])) error
  judge order attempts last_error (some r) error =
      let desc = describe_retcode d.show_int r.retcode r.comment in
      if is_done r.retcode
      then final (record {
        result = fill order r desc;
        attempts = attempts;
        retryable_gave_up = false;
        last_error = last_error;
      })
      else if not (is_retryable r.retcode)
      then final (record {
        result = rejection order (some r.retcode) desc;
        attempts = attempts;
        retryable_gave_up = false;
        last_error = some error;
      })
      else again desc error

  abbrev pub exhausted : OrderRequest F → ℕ → String → Option String → ExecOutcome F
  exhausted order attempts last_desc last_error = record {
    result =
        rejection order none
          (format ("RETRY_EXHAUSTED after " ∷ d.show_int (pos attempts) ∷ ": " ∷ last_desc ∷ []));
    attempts = attempts;
    retryable_gave_up = true;
    last_error = last_error;
  }

module _ {F T : Type 0} ⦃d : Float F⦄ ⦃m : Terminal F T⦄ where
  -- `_tick`
  unfoldable pub get_tick : String → T → Result (Tick F)
  get_tick symbol t = elim (m.symbol_info_tick symbol t) [
    | some tick ↦ ok tick
    | none ↦ raise (runtime_error (format ("symbol_info_tick returned None for " ∷ symbol ∷ [])))
  ]

  unfoldable pub build_request : Executor F T → OrderRequest F → Option F → T → Result (Request F)
  build_request ex order price t = get_tick order.symbol t >>= λ tick. ok (record {
    symbol = order.symbol;
    volume = order.lots;
    kind = order.direction;
    price = deal_price price (side_price order.direction tick);
    sl = order.sl;
    tp = order.tp;
    deviation = order.deviation_points;
    magic = ex.magic;
    comment = format ("vix75:" ∷ cut 16 order.idempotency_key ∷ []);
  })

  -- `clock` is `int(time.time())`.
  unfoldable pub execute_dry_run : ℕ → Option T → OrderRequest F → Result (ExecOutcome F)
  execute_dry_run clock none order = ok (dry_fill order clock order.entry)
  execute_dry_run clock (some t) order = get_tick order.symbol t >>= λ tick.
      ok (dry_fill order clock (side_price order.direction tick))

  -- `if attempts < MAX_ATTEMPTS: time.sleep(delay)`
  abbrev pub pause : ℕ → F → Executor F T → Executor F T
  pause attempts delay ex =
      if ltb attempts max_attempts then record ex { sleeps = ex.sleeps ++ (delay ∷ []) } else ex

  -- `while attempts < MAX_ATTEMPTS`, by the rounds that are left.
  unfoldable pub attempt :
      ℕ
      → Request F
      → OrderRequest F
      → (attempts : ℕ) (delay : F) (last_desc : String) (last_error : Option String) → T
      → Executor F T
      → ExecOutcome F × Executor F T
  attempt zero request order attempts delay last_desc last_error t ex =
      (exhausted order attempts last_desc last_error, ex)
  attempt (suc left) request order attempts delay last_desc last_error t ex =
      let sent = m.order_send request t in
      let tried : Executor F T = record ex {
        terminal = some sent.1;
        sends = ex.sends ++ (request ∷ []);
      } in
      elim (judge order (attempts + 1) last_error sent.0 (m.last_error sent.1)) [
        | final outcome ↦ (outcome, tried)
        | again desc error ↦
            attempt left request order (attempts + 1) (d.mul delay (d.lit 2 0)) desc (some error)
              sent.1 (pause (attempts + 1) delay tried)
      ]

  unfoldable pub execute : ℕ → Executor F T → OrderRequest F → Result (ExecOutcome F) × Executor F T
  execute clock ex order =
      if ex.dry_run_mode then (execute_dry_run clock ex.terminal order, ex) else elim ex.terminal [
        | none ↦ (raise assertion_error, ex)
        | some t ↦ elim (build_request ex order none t) [
          | raise e ↦ (raise e, ex)
          | ok request ↦
              let (outcome, ex') =
                attempt max_attempts request order 0 ex.backoff_base_s "no response" none t ex in
              (ok outcome, ex')
        ]
      ]
