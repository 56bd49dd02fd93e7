-- ===== src/Scoring.antt =====
-- packages/vix_core/vix_core/scoring.py: the confluence score and its gates. The scorer's two
-- thresholds are arguments; the texts of regimes and directions are those of their enums.
pub mod Gates
use vix_75_platform.Base.{
  ℕ, ◌+◌, String, Bool, true, false, not, ◌&&◌, ◌||◌, Option, none, some, List, [], ◌∷◌, ◌++◌,
  format, if◌then◌else◌,
}
use vix_75_platform.Base.Dict.{text_eq}
use vix_75_platform.Base.Int.{pos}
use vix_75_platform.Float.{Float}
use vix_75_platform.Schemas.{
  ConfluenceComponents, Direction, buy, sell, show_direction, RegimeState, s0_range, s1_trend_up,
  s2_trend_down, show_regime, ZoneKind, supply, demand,
}

pub record ConfluenceInputs (F : Type 0) : Type 0 where
  pub direction : Direction
  pub htf_trend : String
  pub regime : RegimeState
  pub zone_kind_touched : Option ZoneKind
  pub bbma_confirms : Bool
  pub rsi_divergence : Bool
  pub p_win : Option F
  pub allow_s0_fade : Bool

pub record ConfluenceResult : Type 0 where
  pub passed : Bool
  pub score : ℕ
  pub max_score : ℕ
  pub components : ConfluenceComponents
  pub rejections : List String

abbrev pub zone_matches : Direction → Option ZoneKind → Bool
zone_matches buy (some demand) = true
zone_matches sell (some supply) = true
zone_matches _ _ = false

abbrev pub trend_ok : Direction → String → Bool
trend_ok buy trend = text_eq trend "up"
trend_ok sell trend = text_eq trend "down"

-- `allow_s0_fade and regime is RegimeState.S0_RANGE`
abbrev pub fading_range : Bool → RegimeState → Bool
fading_range allow s0_range = allow
fading_range allow _ = false

abbrev pub regime_ok : Direction → Bool → RegimeState → Bool
regime_ok buy allow s1_trend_up = true
regime_ok sell allow s2_trend_down = true
regime_ok direction allow regime = fading_range allow regime

-- The weight of a component, and its line in the rejections.
abbrev weight : ℕ → Bool → ℕ
weight w hit = if hit then w else 0

abbrev unless : Bool → String → List String
unless hit reason = if hit then [] else reason ∷ []

unfoldable pub score_of : ConfluenceComponents → ℕ
score_of c =
    weight 2 c.zone_touch
    + weight 1 c.htf_trend_aligned
    + weight 1 c.bbma_confirm
    + weight 1 c.rsi_divergence
    + weight 1 c.regime_ok
    + weight 1 c.meta_label_ok

module _ {F : Type 0} ⦃d : Float F⦄ where
  -- `p_win is not None and p_win > min_p_win`
  abbrev pub meta_ok : F → Option F → Bool
  meta_ok min_p_win none = false
  meta_ok min_p_win (some p) = d.lt min_p_win p

  -- `p_win is None or p_win <= min_p_win`
  abbrev pub meta_fails : F → Option F → Bool
  meta_fails min_p_win none = true
  meta_fails min_p_win (some p) = d.le p min_p_win

  abbrev pub meta_reason : F → Option F → String
  meta_reason min_p_win none = "meta-label missing/below threshold"
  meta_reason min_p_win (some p) =
      format ("P(win)=" ∷ d.show_fixed 3 p ∷ " <= " ∷ d.show min_p_win ∷ [])

  abbrev pub components_of : F → ConfluenceInputs F → ConfluenceComponents
  components_of min_p_win inputs = record {
    htf_trend_aligned =
        trend_ok inputs.direction inputs.htf_trend
        || fading_range inputs.allow_s0_fade inputs.regime;
    zone_touch = zone_matches inputs.direction inputs.zone_kind_touched;
    bbma_confirm = inputs.bbma_confirms;
    rsi_divergence = inputs.rsi_divergence;
    regime_ok = regime_ok inputs.direction inputs.allow_s0_fade inputs.regime;
    meta_label_ok = meta_ok min_p_win inputs.p_win;
  }

  abbrev pub rejections_of : F → ConfluenceInputs F → ConfluenceComponents → List String
  rejections_of min_p_win inputs c =
      unless c.zone_touch "no matching S/D zone touch"
      ++ unless c.htf_trend_aligned "direction counter to HTF trend without fade mode"
      ++ unless c.bbma_confirm "BBMA confirmation missing"
      ++ unless c.rsi_divergence "RSI divergence missing"
      ++ unless c.regime_ok (
          format (
            "HMM regime "
            ∷ show_regime inputs.regime
            ∷ " blocks "
            ∷ show_direction inputs.direction
            ∷ []))
      ++ unless c.meta_label_ok (meta_reason min_p_win inputs.p_win)

  -- `ConfluenceScorer(min_score, min_p_win).evaluate(inputs)`
  unfoldable pub calculate_score : F → F → ConfluenceInputs F → ConfluenceResult
  calculate_score min_score min_p_win inputs =
      let c = components_of min_p_win inputs in
      let hard_fail = not c.zone_touch || not c.regime_ok || meta_fails min_p_win inputs.p_win in
      record {
        passed = not hard_fail && d.le min_score (d.of_int (pos (score_of c)));
        score = score_of c;
        max_score = 7;
        components = c;
        rejections = rejections_of min_p_win inputs c;
      }
