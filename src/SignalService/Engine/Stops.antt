-- ===== src/SignalService/Engine/Stops.antt =====
-- Where services/signal-service/app/engine.py puts the stop of a signal.
use vix_75_platform.Base.{
  ℕ, ◌≡◌, ◌⊎◌, inl, inr, refl, subst, String, true, Option, none, some, List, [], ◌∷◌, arith,
  Option-cases,
}
use vix_75_platform.Float.{Float, IsOrdered, ◌≼◌, min-le, le-max}
use vix_75_platform.Schemas.{
  ConfluenceComponents, buy, sell, RegimeState, Signal, Zone, ZoneKind, Direction,
}
use vix_75_platform.SignalService.Engine.{
  LtfSnapshot, MarketContext, SignalEngine, direction_of, edge_of, resolve_regime, contains,
  zone_touch, zone_edge, stop, conclude, judge, evaluate, build_signal,
}
use vix_75_platform.SignalService.Engine.Fires.{of_some, has_live_zone, zone_touch_lem}

module _ {F : Type 0} ⦃d : Float F⦄ where
  -- The edge is that of a zone of the kind, in any state, with the close inside.
  abbrev pub HasEdge : ZoneKind → List (Zone F) → F → F → Type 0
  HasEdge kind [] close edge = ⊥
  HasEdge kind (z ∷ zones) close edge =
      ((contains z close ≡ true) × (z.kind ≡ kind) × (edge ≡ edge_of kind z))
      ⊎ HasEdge kind zones close edge

  zone_edge-HasEdge :
      (kind : ZoneKind) (zones : List (Zone F)) (close : F)
      → has_live_zone kind zones close ≡ true
      → HasEdge kind zones close (zone_edge kind zones close)
  zone_edge-HasEdge kind [] close h = ground arith
  zone_edge-HasEdge kind (z ∷ zones) close h = ground (arith, zone_edge-HasEdge kind zones close)

  -- A stop beyond the edge by the engine's buffer, and beyond the entry by a tenth of the ATR. `sl`
  -- is the stop before its rounding.
  abbrev pub IsBeyond : SignalEngine F → LtfSnapshot F → Direction → F → F → Type 0
  IsBeyond engine ltf buy edge sl =
      (sl ≼ d.sub edge (d.mul engine.sl_atr_buffer ltf.atr))
      × (sl ≼ d.sub ltf.close (d.mul (d.lit 1 1) ltf.atr))
  IsBeyond engine ltf sell edge sl =
      (d.add edge (d.mul engine.sl_atr_buffer ltf.atr) ≼ sl)
      × (d.add ltf.close (d.mul (d.lit 1 1) ltf.atr) ≼ sl)

  pub record HasStop (engine : SignalEngine F) (ltf : LtfSnapshot F) (s : Signal F) : Type 0 where
    pub kind : ZoneKind
    pub edge : F
    pub sl : F
    pub direction_eq : s.direction ≡ direction_of kind
    pub has_edge : HasEdge kind ltf.zones ltf.close edge
    pub sl_eq : s.sl ≡ d.round sl 5
    pub entry_eq : s.entry ≡ d.round ltf.close 5
    pub beyond : IsBeyond engine ltf s.direction edge sl

  module _ (o : IsOrdered F) (engine : SignalEngine F) (id : String) (ltf : LtfSnapshot F) where
    stop-IsBeyond :
        (direction : Direction) (edge : F)
        → IsBeyond engine ltf direction edge (stop engine direction edge ltf.close ltf.atr)
    stop-IsBeyond buy edge = min-le o _ _
    stop-IsBeyond sell edge = le-max o _ _

    build_signal-HasStop :
        (kind : ZoneKind) (score : ℕ) (components : ConfluenceComponents)
        → has_live_zone kind ltf.zones ltf.close ≡ true
        → HasStop engine ltf (build_signal engine id ltf (direction_of kind) kind score components)
    unfolding build_signal
    build_signal-HasStop kind score components h = record {
      kind = kind;
      edge = zone_edge kind ltf.zones ltf.close;
      sl = stop engine (direction_of kind) (zone_edge kind ltf.zones ltf.close) ltf.close ltf.atr;
      direction_eq = refl;
      has_edge = zone_edge-HasEdge kind ltf.zones ltf.close h;
      sl_eq = refl;
      entry_eq = refl;
      beyond = stop-IsBeyond (direction_of kind) (zone_edge kind ltf.zones ltf.close);
    }

    module _ (repr : String → String) (market : MarketContext F) where
      conclude-HasStop :
          (touched : ZoneKind × Direction) (regime : RegimeState) (s : Signal F)
          → zone_touch ltf.zones ltf.close ≡ some touched
          → (conclude engine id ltf market touched regime).signal ≡ some s
          → HasStop engine ltf s
      unfolding conclude
      conclude-HasStop (kind, direction) regime s ht hs =
          let (live, e) = zone_touch_lem ltf.zones ltf.close kind direction ht in
          let (_, same) = of_some _ _ s hs in
          subst (HasStop engine ltf) same (rw e (build_signal-HasStop kind _ _ live))

      judge-HasStop :
          (touched : ZoneKind × Direction) (regime : Option RegimeState) (s : Signal F)
          → zone_touch ltf.zones ltf.close ≡ some touched
          → (judge repr engine id ltf market regime touched).signal ≡ some s
          → HasStop engine ltf s
      unfolding judge
      judge-HasStop touched none s ht hs = ground arith
      judge-HasStop touched (some regime) s ht hs =
          conclude-HasStop touched regime s ht (ground arith)

      -- If the order of floats is total, the stop of a signal that `evaluate` fires is, before its
      -- rounding, beyond the entry by a tenth of the ATR or more, and by the engine's buffer
      -- beyond the edge of a zone of the signal's side, in any state, that holds the close.
      pub evaluate-HasStop :
          (s : Signal F)
          → (evaluate repr engine id ltf market).signal ≡ some s
          → HasStop engine ltf s
      unfolding evaluate
      evaluate-HasStop s h = elim (Option-cases (zone_touch ltf.zones ltf.close)) [
        | inl e ↦ let k = rw (e, evaluate) at h in ground arith
        | inr (touched, e) ↦
            judge-HasStop touched (resolve_regime market.regime) s e (rw (e, evaluate) at h)
      ]
