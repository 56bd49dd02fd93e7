-- ===== src/Sizing/Margin.antt =====
-- The loop of the margin check in packages/vix_core/vix_core/risk.py: when it ends, and at what size.
use vix_75_platform.Base.{
  ℕ, zero, suc, ◌<◌, ◌≡◌, Bool, true, false, ◌&&◌, arith, inl, inr, Bool-cases,
}
use vix_75_platform.Base.Result.{Result, ok, raise}
use vix_75_platform.Float.{Float, IsOrdered, nought, max, ◌≼◌, ◌≺◌, le_refl}
use vix_75_platform.Sizing.{SymbolConstraints, grid, overflows, floor_to_step, shrink}

module _ {F : Type 0} ⦃d : Float F⦄ where
  open d use {sub, mul, lt, le}

  -- One round of the loop.
  abbrev pub smaller_size : SymbolConstraints F → F → F
  smaller_size c lots = max (grid (sub lots c.volume_step) c.volume_step) nought

  -- What the loop relies on in the arithmetic at one symbol, of the sizes between its limits: the
  -- volume step is positive, and a round takes a size above `volume_min` to a smaller one without an
  -- overflow; there are finitely many of them.
  pub record StepsDown (c : SymbolConstraints F) : Type 0 where
    pub step_pos : le c.volume_step nought ≡ false
    pub rank : F → ℕ
    pub finite :
        (x : F)
        → c.volume_min ≺ x
        → x ≼ c.volume_max
        → overflows (sub x c.volume_step) c.volume_step ≡ false
    pub smaller : (x : F) → c.volume_min ≺ x → x ≼ c.volume_max → smaller_size c x ≼ x
    pub rank_falls :
        (x : F) → c.volume_min ≺ x → x ≼ c.volume_max → rank (smaller_size c x) < rank x

  -- The test of the loop.
  abbrev pub goes_on : SymbolConstraints F → F → F → Bool
  goes_on c budget lots = lt budget (mul lots c.margin_per_lot) && lt c.volume_min lots

  -- A size at which the loop has ended, no larger than the first.
  abbrev pub Ends : SymbolConstraints F → F → F → Result F → Type 0
  Ends c budget lots (ok r) = (goes_on c budget r ≡ false) × (r ≼ lots)
  Ends c budget lots (raise _) = Unit

  module _ (o : IsOrdered F) (c : SymbolConstraints F) (s : StepsDown c) where
    open o use {le_trans}
    open s use {step_pos, rank, finite, smaller, rank_falls}

    Ends-trans : (budget x y : F) (m : Result F) → y ≼ x → Ends c budget y m → Ends c budget x m
    Ends-trans budget x y (ok r) h (done, k) = (done, le_trans r y x k h)
    Ends-trans budget x y (raise _) h k = tt

    above_min : (budget lots : F) → goes_on c budget lots ≡ true → c.volume_min ≺ lots
    above_min budget lots more = ground (arith, more)

    -- Whatever the fuel, a size that the loop returns ends it and is no larger than the first.
    pub shrink-Ends :
        (fuel : ℕ) (budget lots : F)
        → lots ≼ c.volume_max
        → Ends c budget lots (shrink fuel c budget lots)
    unfolding shrink floor_to_step
    shrink-Ends zero budget lots top = tt
    shrink-Ends (suc fuel) budget lots top = elim (Bool-cases (goes_on c budget lots)) [
      | inl more ↦
          let above = above_min budget lots more in
          let down = smaller lots above top in
          rw (more, step_pos, finite lots above top)
            (Ends-trans budget lots (smaller_size c lots) _ down
              (shrink-Ends fuel budget (smaller_size c lots) (le_trans _ lots _ down top)))
      | inr done ↦ rw done (done, le_refl o lots)
    ]

    -- Fuel beyond the rank of the first size is enough.
    pub shrink_total :
        (fuel : ℕ) (budget lots : F)
        → lots ≼ c.volume_max
        → rank lots < fuel
        → (r : F) × (shrink fuel c budget lots ≡ ok r)
    unfolding shrink floor_to_step
    shrink_total zero budget lots top h = absurd (omega arith)
    shrink_total (suc fuel) budget lots top h = elim (Bool-cases (goes_on c budget lots)) [
      | inl more ↦
          let above = above_min budget lots more in
          let falls = rank_falls lots above top in
          rw (more, step_pos, finite lots above top)
            (shrink_total fuel budget (smaller_size c lots)
              (le_trans _ lots _ (smaller lots above top) top) (omega (arith, falls, h)))
      | inr done ↦ (lots, rw done)
    ]
