-- ===== src/Sizing/Outcomes.antt =====
-- How `compute_lots` of packages/vix_core/vix_core/risk.py ends: rejections carry no size, the loop
-- always ends, and a volume step that is not positive raises.
use vix_75_platform.Base.{ℕ, ◌<◌, ◌≡◌, refl, true, false, Option, none, some, arith}
use vix_75_platform.Base.Result.{Result, ok, raise, value_error, ◌>>=◌}
use vix_75_platform.Float.{Float, IsOrdered, nought, ◌≼◌, le_refl, le_of_not_lt}
use vix_75_platform.Sizing.{
  LotSizingResult, SizingInput, SizingStatus, sized, capped_by_volume_max, floor_to_step, overflows,
  margin_verdict, check_margin, clamp_lots, compute_lots, loss_per_lot, risk_budget,
  validate_stop_distances,
}
use vix_75_platform.Sizing.Margin.{StepsDown, shrink_total}
use vix_75_platform.Sizing.Bounds.{is_sized, risk_sized}

module _ {F : Type 0} ⦃d : Float F⦄ where
  open d use {mul, div, le}

  -- A rejection carries no size.
  abbrev NoLots : Result (LotSizingResult F) → Type 0
  NoLots (ok r) = is_sized r.status ≡ false → r.lots ≡ nought
  NoLots (raise _) = Unit

  bind-NoLots :
      (i : SizingInput F) (risk budget : F) (status : SizingStatus) (m : Result F)
      → is_sized status ≡ true
      → NoLots (m >>= λ r. ok (margin_verdict i risk status budget r))
  unfolding margin_verdict
  bind-NoLots i risk budget status (ok r) h = ground arith
  bind-NoLots i risk budget status (raise _) h = tt

  check_margin-NoLots :
      (fuel : ℕ) (i : SizingInput F) (risk : F) (status : SizingStatus) (lots : F) (free : Option F)
      → is_sized status ≡ true
      → NoLots (check_margin fuel i risk status lots free)
  unfolding check_margin
  check_margin-NoLots fuel i risk status lots none h = ground arith
  check_margin-NoLots fuel i risk status lots (some free) h =
      bind-NoLots i risk (mul free i.margin_buffer) status _ h

  clamp_lots-NoLots :
      (fuel : ℕ) (i : SizingInput F) (risk lots : F) → NoLots (clamp_lots fuel i risk lots)
  unfolding clamp_lots
  clamp_lots-NoLots fuel i risk lots =
      let c = i.constraints in
      ground (
        arith,
        check_margin-NoLots fuel i risk capped_by_volume_max c.volume_max i.free_margin refl,
        check_margin-NoLots fuel i risk sized lots i.free_margin refl,
      )

  -- A result of `compute_lots` whose status is neither sized nor capped has zero lots.
  compute_lots_rejected :
      (fuel : ℕ) (i : SizingInput F) {r : LotSizingResult F}
      → compute_lots fuel i ≡ ok r
      → is_sized r.status ≡ false
      → r.lots ≡ nought
  unfolding compute_lots floor_to_step
  compute_lots_rejected fuel i {r} e g =
      ground (arith, clamp_lots-NoLots fuel i (risk_budget i) (risk_sized i))

  -- The inputs that pass the checks before the sizing.
  pub record IsSizable (i : SizingInput F) : Type 0 where
    pub equity_pos : le i.equity nought ≡ false
    pub risk_pos : le i.risk_pct nought ≡ false
    pub tick_size_pos : le i.constraints.tick_size nought ≡ false
    pub tick_value_pos : le i.constraints.tick_value nought ≡ false
    pub entry_pos : le i.entry nought ≡ false
    pub stop_pos : le i.stop_loss nought ≡ false
    pub stops : validate_stop_distances i.entry i.stop_loss i.take_profit i.constraints ≡ none
    pub loss_pos : le (loss_per_lot i.entry i.stop_loss i.constraints) nought ≡ false

  -- On inputs that pass every check before the sizing, a volume step that is not positive makes
  -- `compute_lots` raise a `ValueError`.
  pub compute_lots_bad_step :
      (fuel : ℕ) (i : SizingInput F)
      → IsSizable i
      → i.constraints.volume_step ≼ nought
      → compute_lots fuel i ≡ raise (value_error "volume_step must be positive")
  unfolding compute_lots floor_to_step
  compute_lots_bad_step fuel i v h = ground arith

  -- The result is a value, not an exception.
  abbrev Returns : Result (LotSizingResult F) → Type 0
  Returns (ok _) = Unit
  Returns (raise _) = ⊥

  value_of : (m : Result (LotSizingResult F)) → Returns m → (r : LotSizingResult F) × (m ≡ ok r)
  value_of (ok r) _ = (r, refl)
  value_of (raise _) h = absurd h

  -- The quotient of the first rounding is finite.
  abbrev pub IsFinite : SizingInput F → Type 0
  IsFinite i =
      overflows (div (risk_budget i) (loss_per_lot i.entry i.stop_loss i.constraints))
        i.constraints.volume_step
      ≡ false

  module _ (o : IsOrdered F) (i : SizingInput F) (s : StepsDown i.constraints) where
    open s use {rank}

    check_margin-Returns :
        (fuel : ℕ) (risk : F) (status : SizingStatus) (lots : F) (free : Option F)
        → lots ≼ i.constraints.volume_max
        → rank lots < fuel
        → Returns (check_margin fuel i risk status lots free)
    unfolding check_margin
    check_margin-Returns fuel risk status lots none top h = tt
    check_margin-Returns fuel risk status lots (some free) top h =
        rw (shrink_total o i.constraints s fuel (mul free i.margin_buffer) lots top h).1 tt

    clamp_lots-Returns :
        (fuel : ℕ) (risk lots : F)
        → rank lots < fuel
        → rank i.constraints.volume_max < fuel
        → Returns (clamp_lots fuel i risk lots)
    unfolding clamp_lots
    clamp_lots-Returns fuel risk lots h k =
        let c = i.constraints in
        ground (
          arith,
          check_margin-Returns fuel risk capped_by_volume_max c.volume_max i.free_margin
              (le_refl o c.volume_max) k,
          check_margin-Returns fuel risk sized lots i.free_margin,
          le_of_not_lt o c.volume_max lots,
          h,
        )

    compute_lots-Returns :
        (fuel : ℕ)
        → IsFinite i
        → rank (risk_sized i) < fuel
        → rank i.constraints.volume_max < fuel
        → Returns (compute_lots fuel i)
    unfolding compute_lots floor_to_step
    compute_lots-Returns fuel fine h k =
        ground (arith, s.step_pos, fine, clamp_lots-Returns fuel (risk_budget i) (risk_sized i) h k)

    -- If the order of floats is total, the symbol's volume step is positive and steps down the
    -- sizes between `volume_min` and `volume_max`, and the quotient of the risk-sized lots by the
    -- step does not overflow, `compute_lots` returns a result, and raises nothing, with fuel above
    -- the rank of the risk-sized lots and of `volume_max`.
    pub compute_lots_total :
        (fuel : ℕ)
        → IsFinite i
        → rank (risk_sized i) < fuel
        → rank i.constraints.volume_max < fuel
        → (r : LotSizingResult F) × (compute_lots fuel i ≡ ok r)
    compute_lots_total fuel fine h k = value_of _ (compute_lots-Returns fuel fine h k)
