-- ===== src/Sizing.antt =====
-- packages/vix_core/vix_core/risk.py: position sizing. `compute_lots` sizes a trade so that its loss
-- at the stop is the configured share of the equity, rounds the size DOWN to the volume step, and
-- refuses what falls below the broker's minimum. The loop that shrinks the size until its margin
-- fits runs on fuel; `Sizing.Margin` shows how much is enough.
pub mod Bounds
pub mod Margin
pub mod Outcomes
use vix_75_platform.Base.{
  ℕ, zero, suc, String, Bool, true, false, ◌&&◌, ◌||◌, Option, none, some, [], ◌∷◌, format,
  if◌then◌else◌,
}
use vix_75_platform.Base.Int.{ℤ}
use vix_75_platform.Base.Result.{Result, ok, raise, value_error, overflow_error, out_of_fuel, ◌>>=◌}
use vix_75_platform.Float.{Float, nought, max}

pub data SizingStatus : Type 0 where
  sized reject_risk_too_small reject_invalid_input : SizingStatus
  reject_margin reject_stops_level capped_by_volume_max : SizingStatus

pub record SymbolConstraints (F : Type 0) : Type 0 where
  pub volume_min : F
  pub volume_max : F
  pub volume_step : F
  pub tick_size : F
  pub tick_value : F
  pub point : F
  pub stops_level_points : ℤ
  pub margin_per_lot : F

pub record LotSizingResult (F : Type 0) : Type 0 where
  pub status : SizingStatus
  pub lots : F
  pub reason : String
  pub risk_amount : F

-- The arguments of `compute_lots`.
pub record SizingInput (F : Type 0) : Type 0 where
  pub equity : F
  pub risk_pct : F
  pub entry : F
  pub stop_loss : F
  pub take_profit : F
  pub constraints : SymbolConstraints F
  pub free_margin : Option F
  pub margin_buffer : F

module _ {F : Type 0} ⦃d : Float F⦄ where
  open d use {
    lit, infinity, of_int, add, sub, mul, div, abs, lt, le, round, floor, show, show_fixed,
  }

  -- The multiple of `step` at or below `value`, up to the rounding to ten decimals.
  unfoldable pub grid : F → F → F
  grid value step = round (mul (floor (round (div value step) 10)) step) 10

  -- `math.floor` raises on an infinite quotient.
  abbrev pub overflows : F → F → Bool
  overflows value step = le infinity (abs (round (div value step) 10))

  unfoldable pub floor_to_step : F → F → Result F
  unfolding grid
  floor_to_step value step =
      if le step nought
      then raise (value_error "volume_step must be positive")
      else if overflows value step
      then raise overflow_error
      else ok (grid value step)

  unfoldable pub validate_stop_distances : F → F → F → SymbolConstraints F → Option String
  validate_stop_distances entry stop_loss take_profit c =
      let min_dist = mul (of_int c.stops_level_points) c.point in
      let sl_dist = abs (sub entry stop_loss) in
      let tp_dist = abs (sub take_profit entry) in
      if le min_dist nought
      then none
      else if lt sl_dist min_dist
      then some (format ("SL distance " ∷ show sl_dist ∷ " < stops level " ∷ show min_dist ∷ []))
      else if lt tp_dist min_dist
      then some (format ("TP distance " ∷ show tp_dist ∷ " < stops level " ∷ show min_dist ∷ []))
      else none

  abbrev pub rejected : SizingStatus → String → F → LotSizingResult F
  rejected status reason risk_amount = record {
    status = status;
    lots = nought;
    reason = reason;
    risk_amount = risk_amount;
  }

  -- `while required > budget and lots > volume_min`
  unfoldable pub shrink : ℕ → SymbolConstraints F → F → F → Result F
  shrink zero c budget lots = raise out_of_fuel
  shrink (suc fuel) c budget lots =
      let smaller = floor_to_step (sub lots c.volume_step) c.volume_step >>= λ lower.
      shrink fuel c budget (max lower nought) in
      if lt budget (mul lots c.margin_per_lot) && lt c.volume_min lots then smaller else ok lots

  -- The two tests behind the loop, on the size that it left.
  unfoldable pub margin_verdict : SizingInput F → F → SizingStatus → F → F → LotSizingResult F
  margin_verdict i risk_amount status budget lots =
      let required = mul lots i.constraints.margin_per_lot in
      if lt budget required
      then rejected reject_margin
          (format (
            "margin "
            ∷ show_fixed 2 required
            ∷ " exceeds usable free margin "
            ∷ show_fixed 2 budget
            ∷ []))
          risk_amount
      else if lt lots i.constraints.volume_min
      then rejected reject_risk_too_small "margin-adjusted lots fell below broker minimum"
          risk_amount
      else record { status = status; lots = lots; reason = "sized"; risk_amount = risk_amount }

  -- The margin check, from the size after the clamp to the final result, by `free_margin`.
  unfoldable pub check_margin :
      ℕ → SizingInput F → F → SizingStatus → F → Option F → Result (LotSizingResult F)
  check_margin fuel i risk_amount status lots none =
      ok (record { status = status; lots = lots; reason = "sized"; risk_amount = risk_amount })
  check_margin fuel i risk_amount status lots (some free_margin) = do
    let budget = mul free_margin i.margin_buffer
    shrunk ← shrink fuel i.constraints budget lots
    ok (margin_verdict i risk_amount status budget shrunk)

  -- The clamp to the broker's limits: down to `volume_max`, never up to `volume_min`.
  unfoldable pub clamp_lots : ℕ → SizingInput F → F → F → Result (LotSizingResult F)
  clamp_lots fuel i risk_amount lots =
      let c = i.constraints in
      if lt lots c.volume_min
      then ok (
          rejected reject_risk_too_small
            (format (
              "risk-sized "
              ∷ show lots
              ∷ " < volume_min "
              ∷ show c.volume_min
              ∷ "; refusing to clamp up"
              ∷ []))
            risk_amount)
      else if lt c.volume_max lots
      then check_margin fuel i risk_amount capped_by_volume_max c.volume_max i.free_margin
      else check_margin fuel i risk_amount sized lots i.free_margin

  -- `(sl_distance / tick_size) * tick_value`
  unfoldable pub loss_per_lot : F → F → SymbolConstraints F → F
  loss_per_lot entry stop_loss c = mul (div (abs (sub entry stop_loss)) c.tick_size) c.tick_value

  unfoldable pub risk_budget : SizingInput F → F
  risk_budget i = div (mul i.equity i.risk_pct) (lit 100 0)

  unfoldable pub compute_lots : ℕ → SizingInput F → Result (LotSizingResult F)
  compute_lots fuel i =
      let c = i.constraints in
      let risk_amount = risk_budget i in
      let per_lot = loss_per_lot i.entry i.stop_loss c in
      if le i.equity nought || le i.risk_pct nought
      then ok (rejected reject_invalid_input "equity/risk_pct must be positive" nought)
      else if le c.tick_size nought || le c.tick_value nought
      then ok (rejected reject_invalid_input "invalid tick_size/tick_value" nought)
      else if le i.entry nought || le i.stop_loss nought
      then ok (rejected reject_invalid_input "prices must be positive" nought)
      else elim (validate_stop_distances i.entry i.stop_loss i.take_profit c) [
        | some reason ↦ ok (rejected reject_stops_level reason risk_amount)
        | none ↦
            if le per_lot nought
            then ok (rejected reject_invalid_input "loss_per_lot computed as zero" risk_amount)
            else do
              lots ← floor_to_step (div risk_amount per_lot) c.volume_step
              clamp_lots fuel i risk_amount lots
      ]
