-- ===== src/RiskService/Safety.antt =====
-- What an order of services/risk-service/app/consumer.py can be, and what never becomes one.
use vix_75_platform.Base.{ℕ, ◌≡◌, ◌≢◌, ◌⊎◌, none, some, arith, sym, subst, ◌∙◌}
use vix_75_platform.Base.Result.{ok}
use vix_75_platform.Float.{Float, IsOrdered, min, ◌≼◌}
use vix_75_platform.Json.{JsonLib}
use vix_75_platform.Redis.{Redis}
use vix_75_platform.Schemas.{Signal}
use vix_75_platform.Sizing.{SymbolConstraints, SizingInput, LotSizingResult, compute_lots}
use vix_75_platform.Sizing.Margin.{StepsDown}
use vix_75_platform.Sizing.Bounds.{risk_sized, IsWithin, compute_lots_bounds}
use vix_75_platform.RiskService.Exposure.{ExposureTracker}
use vix_75_platform.RiskService.Validator.{AccountSnapshot, load_account, load_symbol_constraints}
use vix_75_platform.RiskService.Consumer.{approve, RiskSettings, size_position, decide}
use vix_75_platform.RiskService.Gates.{decide-IsApproved}

known_inj {ℓ} : {A : Type ℓ} {a b : A} → ok (some a) ≡ ok (some b) → a ≡ b
known_inj h = cc

module _ {F : Type 0} ⦃d : Float F⦄ where
  -- The arguments with which the service sizes a signal.
  abbrev pub sizing_input :
      RiskSettings F → Signal F → AccountSnapshot F → SymbolConstraints F → SizingInput F
  sizing_input settings signal account constraints = record {
    equity = account.balance;
    risk_pct = settings.risk_pct_per_trade;
    entry = signal.entry;
    stop_loss = signal.sl;
    take_profit = signal.tp1;
    constraints = constraints;
    free_margin = some account.margin_free;
    margin_buffer = settings.margin_usage_cap;
  }

module _ {F : Type 0} ⦃d : Float F⦄ (fuel : ℕ) (settings : RiskSettings F) (signal : Signal F)
    (result : LotSizingResult F) where
  abbrev Sizes : AccountSnapshot F → SymbolConstraints F → Type 0
  Sizes account constraints =
      compute_lots fuel (sizing_input settings signal account constraints) ≡ ok result

module _ {F R : Type 0} ⦃d : Float F⦄ ⦃j : JsonLib F⦄ ⦃c : Redis R⦄ where
  -- If the order of floats is total and `_decide` approves a signal while Redis holds the
  -- account's and the symbol's snapshot, with `volume_min <= volume_max` and a volume step that
  -- steps down the sizes between them, the approved lots lie between `volume_min` and the smaller
  -- of the risk-sized lots and `volume_max`, and their margin is within the usage cap of the free
  -- margin.
  pub approved_lots_bounds :
      (o : IsOrdered F) (fuel : ℕ) (settings : RiskSettings F) (r : R) (t t' : ExposureTracker F)
      (signal : Signal F) {lots risk : F} (account : AccountSnapshot F)
      (constraints : SymbolConstraints F)
      → decide fuel settings r t signal ≡ (t', ok (approve lots risk))
      → load_account (some r) ≡ ok (some account)
      → load_symbol_constraints (some r) signal.symbol ≡ ok (some constraints)
      → StepsDown constraints
      → constraints.volume_min ≼ constraints.volume_max
      → let i = sizing_input settings signal account constraints in
        IsWithin i (min (risk_sized i) constraints.volume_max) i.free_margin lots
  unfolding size_position
  approved_lots_bounds o fuel settings r t t' signal {lots} {risk} account constraints e ha hc s h =
      let a = decide-IsApproved fuel settings r t t' signal {lots = lots} {risk = risk} e in
      let account_eq = known_inj (sym a.account_known ∙ ha) in
      let constraints_eq = known_inj (sym a.constraints_known ∙ hc) in
      let sizing = subst (Sizes fuel settings signal a.size.result account) constraints_eq (
        subst (λ x. Sizes fuel settings signal a.size.result x a.constraints) account_eq
          a.size.sizing) in
      rw a.size.lots_eq (
        compute_lots_bounds o (sizing_input settings signal account constraints) s fuel h sizing
          a.size.status)

  -- If the account snapshot or the symbol's snapshot is missing from Redis, `_decide` approves no
  -- lots.
  decide_fails_closed :
      (fuel : ℕ) (settings : RiskSettings F) (r : R) (t t' : ExposureTracker F) (signal : Signal F)
      (lots risk : F)
      → (load_account {F = F} (some r) ≡ ok none)
        ⊎ (load_symbol_constraints {F = F} (some r) signal.symbol ≡ ok none)
      → decide fuel settings r t signal ≢ (t', ok (approve lots risk))
  decide_fails_closed fuel settings r t t' signal lots risk missing e =
      let a = decide-IsApproved fuel settings r t t' signal {lots = lots} {risk = risk} e in
      ground (arith, a.account_known, a.constraints_known)
