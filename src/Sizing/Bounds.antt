-- ===== src/Sizing/Bounds.antt =====
-- What the result of `compute_lots` of packages/vix_core/vix_core/risk.py guarantees.
use vix_75_platform.Base.{ℕ, ◌≡◌, Bool, true, false, Option, none, some, arith}
use vix_75_platform.Base.Result.{Result, ok, raise, ◌>>=◌}
use vix_75_platform.Float.{min, Float, IsOrdered, ◌≼◌, le_refl, le_of_not_lt}
use vix_75_platform.Sizing.{
  LotSizingResult, SizingInput, SizingStatus, sized, capped_by_volume_max, grid, floor_to_step,
  margin_verdict, check_margin, clamp_lots, compute_lots, loss_per_lot, risk_budget,
}
use vix_75_platform.Sizing.Margin.{StepsDown, Ends, shrink-Ends}

-- `status in (OK, CAPPED_BY_VOLUME_MAX)`
abbrev pub is_sized : SizingStatus → Bool
is_sized sized = true
is_sized capped_by_volume_max = true
is_sized _ = false

module _ {F : Type 0} ⦃d : Float F⦄ where
  open d use {div, mul, lt, le}

  -- The size that the risk budget allows, on the grid of the volume step.
  abbrev pub risk_sized : SizingInput F → F
  risk_sized i =
      grid (div (risk_budget i) (loss_per_lot i.entry i.stop_loss i.constraints))
        i.constraints.volume_step

  -- The margin of a position fits the usable part of the free margin, where that is known.
  abbrev pub FitsMargin : SizingInput F → F → Option F → Type 0
  FitsMargin i lots none = Unit
  FitsMargin i lots (some free) = mul lots i.constraints.margin_per_lot ≼ mul free i.margin_buffer

  -- Between the broker's minimum and `top`, with a margin that fits.
  abbrev pub IsWithin : SizingInput F → F → Option F → F → Type 0
  IsWithin i top free lots =
      (i.constraints.volume_min ≼ lots) × (lots ≼ top) × FitsMargin i lots free

  -- Of a result that sizes a trade: the size is within the bounds.
  abbrev pub Keeps : SizingInput F → F → Option F → Result (LotSizingResult F) → Type 0
  Keeps i top free (ok r) = is_sized r.status ≡ true → IsWithin i top free r.lots
  Keeps i top free (raise _) = Unit

  module _ (o : IsOrdered F) (i : SizingInput F) (s : StepsDown i.constraints) where
    open o use {le_trans}

    verdict-Keeps :
        (risk top free lots : F) (status : SizingStatus)
        → lots ≼ top
        → Keeps i top
            (some free)
            (ok (margin_verdict i risk status (mul free i.margin_buffer) lots))
    unfolding margin_verdict
    verdict-Keeps risk top free lots status h g =
        let required = mul lots i.constraints.margin_per_lot in
        ground (
          arith,
          le_of_not_lt o (mul free i.margin_buffer) required,
          le_of_not_lt o lots i.constraints.volume_min,
        )

    bind-Keeps :
        (risk top free lots : F) (status : SizingStatus) (m : Result F)
        → lots ≼ top
        → Ends i.constraints (mul free i.margin_buffer) lots m
        → Keeps i top
            (some free)
            (m >>= λ r. ok (margin_verdict i risk status (mul free i.margin_buffer) r))
    bind-Keeps risk top free lots status (ok r) h (_, k) =
        verdict-Keeps risk top free r status (le_trans r lots top k h)
    bind-Keeps risk top free lots status (raise _) h k = tt

    check_margin-Keeps :
        (fuel : ℕ) (risk top : F) (status : SizingStatus) (lots : F) (free : Option F)
        → i.constraints.volume_min ≼ lots
        → lots ≼ top
        → lots ≼ i.constraints.volume_max
        → Keeps i top free (check_margin fuel i risk status lots free)
    unfolding check_margin
    check_margin-Keeps fuel risk top status lots none h k m = λ g. (h, k, tt)
    check_margin-Keeps fuel risk top status lots (some free) h k m =
        bind-Keeps risk top free lots status _ k
          (shrink-Ends o i.constraints s fuel (mul free i.margin_buffer) lots m)

    clamp_lots-Keeps :
        (fuel : ℕ) (risk lots : F)
        → i.constraints.volume_min ≼ i.constraints.volume_max
        → Keeps i (min lots i.constraints.volume_max) i.free_margin (clamp_lots fuel i risk lots)
    unfolding clamp_lots
    clamp_lots-Keeps fuel risk lots h =
        let c = i.constraints in
        ground (
          arith,
          le_refl o lots,
          le_refl o c.volume_max,
          le_of_not_lt o lots c.volume_min,
          le_of_not_lt o c.volume_max lots,
          check_margin-Keeps fuel risk c.volume_max capped_by_volume_max c.volume_max i.free_margin,
          check_margin-Keeps fuel risk lots sized lots i.free_margin,
        )

    -- If the order of floats is total, `volume_min <= volume_max`, the symbol's volume step is
    -- positive and steps down the sizes between `volume_min` and `volume_max`, every trade that
    -- `compute_lots` sizes is at least `volume_min`, at most the smaller of the risk-sized lots
    -- and `volume_max`, and its margin fits the usable free margin where that is given.
    pub compute_lots_bounds :
        (fuel : ℕ) {r : LotSizingResult F}
        → i.constraints.volume_min ≼ i.constraints.volume_max
        → compute_lots fuel i ≡ ok r
        → is_sized r.status ≡ true
        → IsWithin i (min (risk_sized i) i.constraints.volume_max) i.free_margin r.lots
    unfolding compute_lots floor_to_step
    compute_lots_bounds fuel {r} h e g =
        ground (arith, s.step_pos, clamp_lots-Keeps fuel (risk_budget i) (risk_sized i) h)
