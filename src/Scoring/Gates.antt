-- ===== src/Scoring/Gates.antt =====
-- What a score of packages/vix_core/vix_core/scoring.py means.
use vix_75_platform.Base.{
  ℕ, String, Bool, false, ◌||◌, if◌then◌else◌, ◌+◌, ◌≤◌, ◌≡◌, ◌↔◌, ◌⊎◌, refl, true, Option, none,
  not, some, [], arith, length,
}
use vix_75_platform.Base.Int.{pos}
use vix_75_platform.Base.Dict.{text_eq}
use vix_75_platform.Float.{Float, IsOrdered, ◌≼◌, ◌≺◌}
use vix_75_platform.Schemas.{
  Direction, RegimeState, buy, sell, supply, demand, s0_range, s1_trend_up, s2_trend_down,
}
use vix_75_platform.Scoring.{ConfluenceInputs, score_of, calculate_score, meta_fails, meta_ok}

abbrev one : Bool → ℕ
one b = if b then 1 else 0

abbrev wanted_trend : Direction → String
wanted_trend buy = "up"
wanted_trend sell = "down"

abbrev fades : Bool → RegimeState → Bool
fades allow s0_range = allow
fades allow s1_trend_up = false
fades allow s2_trend_down = false

module _ {F : Type 0} where
  -- A buy in a demand zone, or a sell in a supply zone.
  abbrev pub IsInZone : ConfluenceInputs F → Type 0
  IsInZone inputs =
      ((inputs.direction ≡ buy) × (inputs.zone_kind_touched ≡ some demand))
      ⊎ ((inputs.direction ≡ sell) × (inputs.zone_kind_touched ≡ some supply))

  -- The trending regime of the direction, or the range regime with fading enabled.
  abbrev pub RegimeAllows : ConfluenceInputs F → Type 0
  RegimeAllows inputs =
      ((inputs.direction ≡ buy) × (inputs.regime ≡ s1_trend_up))
      ⊎ ((inputs.direction ≡ sell) × (inputs.regime ≡ s2_trend_down))
      ⊎ ((inputs.regime ≡ s0_range) × (inputs.allow_s0_fade ≡ true))

  -- How many of the BBMA confirmation, the RSI divergence and the trend are there; a fade in the range
  -- counts as the trend.
  abbrev pub extras : ConfluenceInputs F → ℕ
  extras inputs =
      one inputs.bbma_confirms
      + one inputs.rsi_divergence
      + one (
          text_eq inputs.htf_trend (wanted_trend inputs.direction)
          || fades inputs.allow_s0_fade inputs.regime)

module _ {F : Type 0} ⦃d : Float F⦄ where
  -- There is a win probability, above the threshold.
  abbrev pub IsLikely : F → Option F → Type 0
  IsLikely min_p_win none = ⊥
  IsLikely min_p_win (some p) = min_p_win ≺ p

  meta_fails-meta_ok : (o : IsOrdered F) (m : F) (p : Option F) → meta_fails m p ≡ not (meta_ok m p)
  meta_fails-meta_ok o m none = refl
  meta_fails-meta_ok o m (some p) = ground (arith, o.lt-eq-not-le m p)

  -- The same by the components of the score.
  pub passed-components :
      (o : IsOrdered F) (min_score min_p_win : F) (inputs : ConfluenceInputs F)
      → let r = calculate_score min_score min_p_win inputs in
        (r.passed ≡ true) ↔ (
          (r.components.zone_touch ≡ true)
          × (r.components.regime_ok ≡ true)
          × (r.components.meta_label_ok ≡ true)
          × (d.le min_score (d.of_int (pos r.score)) ≡ true))
  unfolding calculate_score
  passed-components o min_score min_p_win inputs =
      ground (arith, meta_fails-meta_ok o min_p_win inputs.p_win)

  -- If the order of floats is total, a score passes exactly if the signal is a buy in a demand
  -- zone or a sell in a supply zone, the regime is the trend of the direction or a range with
  -- fading enabled, the win probability is given and above its threshold, and `min_score` is at
  -- most 4 plus one each for the BBMA confirmation, the RSI divergence, and a trend that agrees or
  -- a fade in a range.
  pub calculate_score_passed :
      (o : IsOrdered F) (min_score min_p_win : F) (inputs : ConfluenceInputs F)
      → ((calculate_score min_score min_p_win inputs).passed ≡ true) ↔ (
          IsInZone inputs
          × RegimeAllows inputs
          × IsLikely min_p_win inputs.p_win
          × (min_score ≼ d.of_int (pos (4 + extras inputs))))
  unfolding calculate_score score_of
  calculate_score_passed o min_score min_p_win inputs =
      ground (arith, meta_fails-meta_ok o min_p_win inputs.p_win)

  -- The score is at most 7; with the number of rejections it comes to 6 or 7; and it is 7 exactly
  -- if nothing was rejected.
  calculate_score_bounds :
      (min_score min_p_win : F) (inputs : ConfluenceInputs F)
      → let r = calculate_score min_score min_p_win inputs in
        (r.score ≤ r.max_score)
        × (r.score + length r.rejections ≤ 7)
        × (7 ≤ r.score + length r.rejections + 1)
        × ((r.score ≡ 7) ↔ (r.rejections ≡ []))
  unfolding calculate_score score_of
  calculate_score_bounds min_score min_p_win inputs = ground arith

  -- A score that passes is for a buy in a demand zone or a sell in a supply zone, in the trending
  -- regime of that direction, or in the range regime with fading enabled.
  pub calculate_score_direction :
      (min_score min_p_win : F) (inputs : ConfluenceInputs F)
      → (calculate_score min_score min_p_win inputs).passed ≡ true
      → ((inputs.direction ≡ buy)
          × (inputs.zone_kind_touched ≡ some demand)
          × ((inputs.regime ≡ s1_trend_up)
              ⊎ ((inputs.regime ≡ s0_range) × (inputs.allow_s0_fade ≡ true))))
        ⊎ ((inputs.direction ≡ sell)
            × (inputs.zone_kind_touched ≡ some supply)
            × ((inputs.regime ≡ s2_trend_down)
                ⊎ ((inputs.regime ≡ s0_range) × (inputs.allow_s0_fade ≡ true))))
  unfolding calculate_score
  calculate_score_direction min_score min_p_win inputs h = ground arith
