-- ===== src/SignalService/Engine/Fires.antt =====
-- When services/signal-service/app/engine.py fires a signal, and what the signal holds.
use vix_75_platform.Base.{
  ◌≡◌, ◌⊎◌, inl, inr, refl, ap, sym, subst, ◌∙◌, String, Bool, true, false, not, ◌&&◌, Option, none,
  some, List, [], ◌∷◌, arith, any, Option-cases, if◌then◌else◌,
}
use vix_75_platform.Base.Int.{pos}
use vix_75_platform.Float.{Float, IsOrdered}
use vix_75_platform.Schemas.{
  Direction, buy, sell, RegimeState, s0_range, s1_trend_up, s2_trend_down, Signal, Zone, ZoneKind,
  supply, demand,
}
use vix_75_platform.Scoring.{calculate_score, trend_ok, meta_ok}
use vix_75_platform.Scoring.Gates.{passed-components, calculate_score_direction}
use vix_75_platform.SignalService.Engine.{
  LtfSnapshot, MarketContext, SignalEngine, is_spent, kind_eq, direction_of, resolve_regime,
  contains, zone_touch, conclude, judge, evaluate, build_signal, inputs_of,
}

pub of_some {ℓ} :
    {A : Type ℓ} (b : Bool) (a c : A) → (if b then some a else none) ≡ some c → (b ≡ true) × (a ≡ c)
of_some true a c h = ground arith
of_some false a c h = ground arith

regimes_lem :
    (x y : Direction) (kind : ZoneKind) (regime : RegimeState) (fade : Bool)
    → x ≡ y
    → ((x ≡ buy)
        × (some kind ≡ some demand)
        × ((regime ≡ s1_trend_up) ⊎ ((regime ≡ s0_range) × (fade ≡ true))))
      ⊎ ((x ≡ sell)
          × (some kind ≡ some supply)
          × ((regime ≡ s2_trend_down) ⊎ ((regime ≡ s0_range) × (fade ≡ true))))
    → ((regime ≡ s0_range) × (fade ≡ true))
      ⊎ ((regime ≡ s1_trend_up) × (y ≡ buy))
      ⊎ ((regime ≡ s2_trend_down) × (y ≡ sell))
regimes_lem x y kind regime fade e h = ground arith

module _ {F : Type 0} ⦃d : Float F⦄ where
  -- A zone of the kind that is neither broken nor mitigated, with the close inside.
  abbrev pub has_live_zone : ZoneKind → List (Zone F) → F → Bool
  has_live_zone kind zones close =
      any (λ z. not (is_spent z.state) && contains z close && kind_eq z.kind kind) zones

  pub zone_touch_lem :
      (zones : List (Zone F)) (close : F) (kind : ZoneKind) (direction : Direction)
      → zone_touch zones close ≡ some (kind, direction)
      → (has_live_zone kind zones close ≡ true) × (direction ≡ direction_of kind)
  zone_touch_lem [] close kind direction h = ground arith
  zone_touch_lem (z ∷ zones) close kind direction h =
      ground (arith, zone_touch_lem zones close kind direction)

  meta_lem :
      (m : F) (p : Option F) → meta_ok m p ≡ true → (q : F) × (p ≡ some q) × (d.lt m q ≡ true)
  meta_lem m none h = ground arith
  meta_lem m (some q) h = (q, refl, h)

  -- What a fired signal rests on.
  pub record Fires (engine : SignalEngine F) (ltf : LtfSnapshot F) (market : MarketContext F)
      (s : Signal F) : Type 0 where
    pub kind : ZoneKind
    pub regime : RegimeState
    pub p_win : F
    pub live_zone : has_live_zone kind ltf.zones ltf.close ≡ true
    pub direction_eq : s.direction ≡ direction_of kind
    pub known_regime : resolve_regime market.regime ≡ some regime
    pub regime_allows :
        ((regime ≡ s0_range) × (engine.allow_s0_fade ≡ true))
        ⊎ ((regime ≡ s1_trend_up) × (s.direction ≡ buy))
        ⊎ ((regime ≡ s2_trend_down) × (s.direction ≡ sell))
    pub trend_allows :
        (trend_ok s.direction market.htf_trend ≡ true) ⊎ (engine.allow_s0_fade ≡ true)
    pub p_win_eq : market.p_win ≡ some p_win
    pub likely : d.lt engine.min_p_win p_win ≡ true
    pub enough : d.le engine.min_confluence (d.of_int (pos s.score)) ≡ true

  module _ (o : IsOrdered F) (repr : String → String) (engine : SignalEngine F) (id : String)
      (ltf : LtfSnapshot F) (market : MarketContext F) where
    conclude-Fires :
        (touched : ZoneKind × Direction) (regime : RegimeState) (s : Signal F)
        → zone_touch ltf.zones ltf.close ≡ some touched
        → resolve_regime market.regime ≡ some regime
        → (trend_ok touched.1 market.htf_trend ≡ true) ⊎ (engine.allow_s0_fade ≡ true)
        → (conclude engine id ltf market touched regime).signal ≡ some s
        → Fires engine ltf market s
    unfolding conclude build_signal calculate_score
    conclude-Fires (kind, direction) regime s ht hr hd hs =
        let inputs = inputs_of engine ltf market kind direction regime in
        let r = calculate_score engine.min_confluence engine.min_p_win inputs in
        let (passed, e) : (r.passed ≡ true)
            × (build_signal engine id ltf direction kind r.score r.components ≡ s) =
          of_some r.passed _ s hs in
        let (touch, regime_ok, meta, enough) =
          (passed-components o engine.min_confluence engine.min_p_win inputs).0 passed in
        let (p, p_eq, likely) = meta_lem engine.min_p_win market.p_win meta in
        let (live, direction_eq) = zone_touch_lem ltf.zones ltf.close kind direction ht in
        let allowed =
          calculate_score_direction engine.min_confluence engine.min_p_win inputs passed in
        let same : direction ≡ s.direction = ap (λ x. x.direction) e in
        record {
          kind = kind;
          regime = regime;
          p_win = p;
          live_zone = live;
          direction_eq = sym same ∙ direction_eq;
          known_regime = hr;
          regime_allows =
              regimes_lem direction s.direction kind regime engine.allow_s0_fade same allowed;
          trend_allows =
              subst (λ x. (trend_ok x market.htf_trend ≡ true) ⊎ (engine.allow_s0_fade ≡ true)) same
                hd;
          p_win_eq = p_eq;
          likely = likely;
          enough =
              subst (λ n. d.le engine.min_confluence (d.of_int (pos n)) ≡ true)
                (ap (λ x. x.score) e) enough;
        }

    judge-Fires :
        (touched : ZoneKind × Direction) (regime : Option RegimeState) (s : Signal F)
        → zone_touch ltf.zones ltf.close ≡ some touched
        → resolve_regime market.regime ≡ regime
        → (judge repr engine id ltf market regime touched).signal ≡ some s
        → Fires engine ltf market s
    unfolding judge
    judge-Fires touched none s ht hr hs = ground arith
    judge-Fires touched (some regime) s ht hr hs =
        conclude-Fires touched regime s ht hr (ground arith) (ground arith)

    -- If the order of floats is total, a signal that `evaluate` fires rests on a zone that holds
    -- the close and is neither broken nor mitigated, has the direction of that zone, a known
    -- regime that allows it, a trend that agrees unless fading is enabled, a win probability above
    -- the threshold and a score of at least `min_confluence`.
    pub evaluate-Fires :
        (s : Signal F)
        → (evaluate repr engine id ltf market).signal ≡ some s
        → Fires engine ltf market s
    unfolding evaluate
    evaluate-Fires s h = elim (Option-cases (zone_touch ltf.zones ltf.close)) [
      | inl e ↦ let k = rw (e, evaluate) at h in ground arith
      | inr (touched, e) ↦
          judge-Fires touched (resolve_regime market.regime) s e refl (rw (e, evaluate) at h)
    ]
