-- ===== src/RiskService/Consumer.antt =====
-- services/risk-service/app/sizing.py and consumer.py: each signal passes the gates in order, and
-- leaves as one order request or one rejection. pydantic's parser is an argument, `parse_signal`:
-- it returns `none` for an empty document.
use vix_75_platform.Base.{◌≡◌, ◌≢◌, ℕ, String, true, Option, none, some}
use vix_75_platform.Base.Dict.{text_eq, text_eq_iff}
use vix_75_platform.Base.Result.{Result, ok, raise, ◌>>=◌}
use vix_75_platform.Float.{Float}
use vix_75_platform.Json.{JsonLib}
use vix_75_platform.Redis.{Redis}
use vix_75_platform.Schemas.{
  Signal, RejectionReason, invalid_signal, account_data_unavailable, max_open_trades_reached,
  max_total_risk_exceeded, stops_level_violation, risk_too_small, margin_exceeded,
}
use vix_75_platform.Sizing.{
  SymbolConstraints, LotSizingResult, SizingStatus, sized, capped_by_volume_max,
  reject_risk_too_small, reject_margin, reject_stops_level, compute_lots, loss_per_lot,
}
use vix_75_platform.RiskService.Exposure.{ExposureTracker, preflight}
use vix_75_platform.RiskService.Validator.{
  AccountSnapshot, load_account, load_symbol_constraints, check_stops,
}

abbrev pub stream_approved : String
stream_approved = "order.request"

abbrev pub stream_rejected : String
stream_rejected = "signal.rejected"

pub approved-ne-rejected : stream_approved ≢ stream_rejected
unfolding text_eq
approved-ne-rejected e =
    let same : text_eq stream_approved stream_rejected ≡ true =
      (text_eq_iff stream_approved stream_rejected).1 e in
    cc

-- `reason.value`
abbrev pub show_reason : RejectionReason → String
show_reason invalid_signal = "invalid_signal"
show_reason account_data_unavailable = "account_data_unavailable"
show_reason max_open_trades_reached = "max_open_trades_reached"
show_reason max_total_risk_exceeded = "max_total_risk_exceeded"
show_reason stops_level_violation = "stops_level_violation"
show_reason risk_too_small = "risk_too_small"
show_reason margin_exceeded = "margin_exceeded"

-- `approved` is a `Decision` with its lots and its risk amount, `refused` one with a reason.
pub data Decision (F : Type 0) : Type 0 where
  approve : (lots risk_amount : F) → Decision F
  refuse : RejectionReason → String → Decision F

pub record RiskSettings (F : Type 0) : Type 0 where
  pub risk_pct_per_trade : F
  pub margin_usage_cap : F

-- `mapping.get(result.status, INVALID_SIGNAL)`
abbrev pub reason_of : SizingStatus → RejectionReason
reason_of reject_risk_too_small = risk_too_small
reason_of reject_margin = margin_exceeded
reason_of reject_stops_level = stops_level_violation
reason_of _ = invalid_signal

pub record RiskConsumer (F R : Type 0) : Type 0 where
  pub redis : R
  pub tracker : ExposureTracker F
  pub processed : ℕ
  pub approved_count : ℕ
  pub rejected_count : ℕ

module _ {F : Type 0} ⦃d : Float F⦄ where
  unfoldable pub size_position :
      ℕ
      → Signal F
      → AccountSnapshot F
      → SymbolConstraints F
      → (risk_pct margin_usage_cap : F) → Result (LotSizingResult F)
  size_position fuel signal account constraints risk_pct margin_usage_cap =
      compute_lots fuel (record {
        equity = account.balance;
        risk_pct = risk_pct;
        entry = signal.entry;
        stop_loss = signal.sl;
        take_profit = signal.tp1;
        constraints = constraints;
        free_margin = some account.margin_free;
        margin_buffer = margin_usage_cap;
      })

  -- `_risk_amount`
  unfoldable pub risk_at_stop : Signal F → SymbolConstraints F → F → F
  risk_at_stop signal constraints lots =
      d.round (d.mul (loss_per_lot signal.entry signal.sl constraints) lots) 2

  unfoldable pub decision_of_sizing :
      Signal F → SymbolConstraints F → LotSizingResult F → Decision F
  decision_of_sizing signal constraints result = elim result.status [
    | sized ↦ approve result.lots (risk_at_stop signal constraints result.lots)
    | capped_by_volume_max ↦ approve result.lots (risk_at_stop signal constraints result.lots)
    | other ↦ refuse (reason_of other) result.reason
  ]

  -- Gates 4 and 5, on loaded snapshots.
  unfoldable pub size_gate :
      ℕ → RiskSettings F → Signal F → AccountSnapshot F → SymbolConstraints F → Result (Decision F)
  size_gate fuel settings signal account constraints = elim (check_stops signal constraints) [
    | some detail ↦ ok (refuse stops_level_violation detail)
    | none ↦
        size_position fuel signal account constraints settings.risk_pct_per_trade
          settings.margin_usage_cap
        >>= λ result. ok (decision_of_sizing signal constraints result)
  ]

  -- Gate 3: both snapshots are there.
  unfoldable pub context_gate :
      ℕ
      → RiskSettings F
      → Signal F
      → Option (AccountSnapshot F)
      → Option (SymbolConstraints F)
      → Result (Decision F)
  context_gate fuel settings signal (some account) (some constraints) =
      size_gate fuel settings signal account constraints
  context_gate fuel settings signal _ _ =
      ok (refuse account_data_unavailable "mt5:account_info / symbol spec missing from Redis cache")

module _ {F R : Type 0} ⦃d : Float F⦄ ⦃j : JsonLib F⦄ ⦃c : Redis R⦄ where
  -- `_balance_hint`
  unfoldable pub balance_hint : R → Result F
  balance_hint r = load_account (some r) >>= λ account.
      ok (elim account [ some a ↦ a.balance | none ↦ d.infinity ])

  -- Gates 3 to 5.
  unfoldable pub snapshot_gates : ℕ → RiskSettings F → R → Signal F → Result (Decision F)
  snapshot_gates fuel settings r signal = do
    account ← load_account (some r)
    constraints ← load_symbol_constraints (some r) signal.symbol
    context_gate fuel settings signal account constraints

  -- The tracker that the refresh leaves, and the decision.
  unfoldable pub decide :
      ℕ
      → RiskSettings F
      → R
      → ExposureTracker F
      → Signal F
      → ExposureTracker F × Result (Decision F)
  decide fuel settings r tracker signal = elim (balance_hint r) [
    | raise e ↦ (tracker, raise e)
    | ok balance ↦
        let (tracker', checked) = preflight (some r) balance tracker in
        (
          tracker',
          checked >>= λ reason. elim reason [
            | some why ↦ ok (refuse why "exposure limits reached")
            | none ↦ snapshot_gates fuel settings r signal
          ],
        )
  ]
