-- ===== src/Zones/Lifecycle.antt =====
-- The life of a zone under packages/vix_core/vix_core/zones.py, over any run of closed bars.
use vix_75_platform.Base.{
  ℕ, ◌+◌, ◌≤◌, ◌≡◌, ◌≢◌, refl, ap, sym, ◌∙◌, Bool, true, false, List, [], ◌∷◌, arith, if◌then◌else◌,
  map, filter, All, length,
}
use vix_75_platform.Float.{Float}
use vix_75_platform.Schemas.{Bar, Zone, ZoneState, fresh, tested, mitigated, broken}
use vix_75_platform.Zones.{
  ZoneEngineConfig, ZoneEngine, is_broken, is_fresh, is_active, is_deep, breaks, touches_zone,
  update, update_all,
}

-- The moves of the state machine on one bar. A deep first touch goes from fresh to mitigated at once.
pub data Moves : ZoneState → ZoneState → Type 0 where
  stay : {s : ZoneState} → Moves s s
  first_touch : Moves fresh tested
  deep_touch : {s : ZoneState} → s ≢ broken → Moves s mitigated
  breaks_out : {s : ZoneState} → s ≢ broken → Moves s broken

-- The position of a state along the lifecycle.
abbrev pub age : ZoneState → ℕ
age fresh = 0
age tested = 1
age mitigated = 2
age broken = 3

module _ (s : ZoneState) where
  -- The state and the touches after a bar that breaks the zone, touches it, or goes deep.
  abbrev next_state : Bool → Bool → Bool → ZoneState
  next_state breaks touched deep =
      if is_broken s
      then s
      else if breaks
      then broken
      else if touched
      then (if deep then mitigated else if is_fresh s then tested else s)
      else s

  abbrev next_touches : Bool → Bool → ℕ → ℕ
  next_touches breaks touched n =
      if is_broken s then n else if breaks then n else if touched then n + 1 else n

next_state-Moves :
    (s : ZoneState) (breaks touched deep : Bool) → Moves s (next_state s breaks touched deep)
next_state-Moves broken b t p = stay
next_state-Moves fresh true t p = breaks_out (ground arith)
next_state-Moves fresh false true true = deep_touch (ground arith)
next_state-Moves fresh false true false = first_touch
next_state-Moves fresh false false p = stay
next_state-Moves tested true t p = breaks_out (ground arith)
next_state-Moves tested false true true = deep_touch (ground arith)
next_state-Moves tested false true false = stay
next_state-Moves tested false false p = stay
next_state-Moves mitigated true t p = breaks_out (ground arith)
next_state-Moves mitigated false true true = deep_touch (ground arith)
next_state-Moves mitigated false true false = stay
next_state-Moves mitigated false false p = stay

Moves-age : (s t : ZoneState) → Moves s t → age s ≤ age t
Moves-age s _ stay = omega arith
Moves-age _ _ first_touch = omega arith
Moves-age fresh _ (deep_touch h) = omega arith
Moves-age tested _ (deep_touch h) = omega arith
Moves-age mitigated _ (deep_touch h) = omega arith
Moves-age broken _ (deep_touch h) = ground arith
Moves-age fresh _ (breaks_out h) = omega arith
Moves-age tested _ (breaks_out h) = omega arith
Moves-age mitigated _ (breaks_out h) = omega arith
Moves-age broken _ (breaks_out h) = omega arith

-- A fresh zone has no touches, and a tested or mitigated one has some.
abbrev pub HasTouches : ZoneState → ℕ → Type 0
HasTouches fresh n = n ≡ 0
HasTouches tested n = 1 ≤ n
HasTouches mitigated n = 1 ≤ n
HasTouches broken n = Unit

next_state-HasTouches :
    (s : ZoneState) (breaks touched deep : Bool) (n : ℕ)
    → HasTouches s n
    → HasTouches (next_state s breaks touched deep) (next_touches s breaks touched n)
next_state-HasTouches s breaks touched deep n h = ground arith

module _ {F : Type 0} ⦃d : Float F⦄ (cfg : ZoneEngineConfig F) where
  -- `update` on the bars in order, each with its ATR.
  abbrev pub after_bars : Zone F → List (Bar F × F) → Zone F
  after_bars zone [] = zone
  after_bars zone ((bar, atr_value) ∷ bars) = after_bars (update cfg zone bar atr_value) bars

  -- What one bar does to a zone: one move of its state, and at most one more touch.
  pub record IsStep (z w : Zone F) : Type 0 where
    pub moves : Moves z.state w.state
    pub touched : (z.touches ≤ w.touches) × (w.touches ≤ z.touches + 1)
    pub counted : HasTouches z.state z.touches → HasTouches w.state w.touches
    pub same : (w.id ≡ z.id) × (w.kind ≡ z.kind) × (w.top ≡ z.top) × (w.bottom ≡ z.bottom)

  update_next :
      (zone : Zone F) (bar : Bar F) (atr_value : F)
      → (breaks : Bool) × (touched : Bool) × (deep : Bool) × ((update cfg zone bar atr_value).state
          ≡ next_state zone.state breaks touched deep)
        × ((update cfg zone bar atr_value).touches
            ≡ next_touches zone.state breaks touched zone.touches)
  unfolding update
  update_next zone bar atr_value = (
    breaks zone.kind zone bar (d.mul cfg.break_buffer_atr atr_value),
    touches_zone zone bar,
    is_deep cfg zone bar,
    ground arith,
    ground arith,
  )

  update_same :
      (zone : Zone F) (bar : Bar F) (atr_value : F)
      → let w = update cfg zone bar atr_value in
        (w.id ≡ zone.id) × (w.kind ≡ zone.kind) × (w.top ≡ zone.top) × (w.bottom ≡ zone.bottom)
  unfolding update
  update_same zone bar atr_value = ground arith

  update-IsStep :
      (zone : Zone F) (bar : Bar F) (atr_value : F) → IsStep zone (update cfg zone bar atr_value)
  update-IsStep zone bar atr_value =
      let (b, t, p, es, et) = update_next zone bar atr_value in
      record {
        moves = rw es (next_state-Moves zone.state b t p);
        touched = ground arith;
        counted = λ h. rw (es, et) (next_state-HasTouches zone.state b t p zone.touches h);
        same = update_same zone bar atr_value;
      }

  -- A broken zone never changes again.
  update_broken :
      (zone : Zone F) (bar : Bar F) (atr_value : F)
      → zone.state ≡ broken
      → update cfg zone bar atr_value ≡ zone
  unfolding update
  update_broken zone bar atr_value h = rw h refl

  -- What a run of `n` bars does to a zone.
  pub record IsLater (n : ℕ) (z w : Zone F) : Type 0 where
    pub older : age z.state ≤ age w.state
    pub touched : (z.touches ≤ w.touches) × (w.touches ≤ z.touches + n)
    pub counted : HasTouches z.state z.touches → HasTouches w.state w.touches
    pub same : (w.id ≡ z.id) × (w.kind ≡ z.kind) × (w.top ≡ z.top) × (w.bottom ≡ z.bottom)
    pub terminal : z.state ≡ broken → w ≡ z

  -- Over any run of bars a zone's state never goes back along fresh, tested, mitigated and broken,
  -- its touches grow by at most one for each bar, touches that agree with the state (none for a
  -- fresh zone, some for a tested or mitigated one) still do after the run, its id, kind and edges
  -- are kept, and a broken zone does not change.
  pub after_bars-IsLater :
      (zone : Zone F) (bars : List (Bar F × F)) → IsLater (length bars) zone (after_bars zone bars)
  after_bars-IsLater zone [] = record {
    older = omega arith;
    touched = omega arith;
    counted = λ h. h;
    same = (refl, refl, refl, refl);
    terminal = λ _. refl;
  }
  after_bars-IsLater zone ((bar, atr_value) ∷ bars) =
      let step = update-IsStep zone bar atr_value in
      let rest = after_bars-IsLater (update cfg zone bar atr_value) bars in
      record {
        older = omega (arith, rest.older, Moves-age _ _ step.moves);
        touched = omega (arith, rest.touched, step.touched);
        counted = λ h. rest.counted (step.counted h);
        same = ground (arith, rest.same, step.same);
        terminal = λ h.
            let e = update_broken zone bar atr_value h in
            rest.terminal (ap (λ z. z.state) e ∙ h) ∙ e;
      }

  abbrev pub IsActive : Zone F → Type 0
  IsActive z = (is_broken z.state ≡ false) × (z.touches ≤ cfg.expiry_bars)

  IsActive-All : (zones : List (Zone F)) → All IsActive (filter (is_active cfg) zones)
  IsActive-All [] = tt
  IsActive-All (z ∷ zones) = ground (arith, IsActive-All zones)

  map_same : (zones : List (Zone F)) → map (λ z. after_bars z []) zones ≡ zones
  map_same [] = refl
  map_same (z ∷ zones) = ap (λ rest. z ∷ rest) (map_same zones)

  after_all :
      (zones : List (Zone F)) (bar : Bar F) (atr_value : F) (bars : List (Bar F × F))
      → map (λ z. after_bars z bars) (map (λ z. update cfg z bar atr_value) zones)
        ≡ map (λ z. after_bars z ((bar, atr_value) ∷ bars)) zones
  after_all [] bar atr_value bars = refl
  after_all (z ∷ zones) bar atr_value bars =
      ap (λ rest. after_bars (update cfg z bar atr_value) bars ∷ rest)
        (after_all zones bar atr_value bars)

module _ {F : Type 0} ⦃d : Float F⦄ where
  -- `update_all` on the bars in order: the active zones of the last one, and the engine.
  abbrev pub run : ZoneEngine F → List (Bar F × F) → List (Zone F) × ZoneEngine F
  run engine [] = ([], engine)
  run engine ((bar, atr_value) ∷ []) = update_all engine bar atr_value
  run engine ((bar, atr_value) ∷ next ∷ bars) =
      run (update_all engine bar atr_value).1 (next ∷ bars)

  run-IsActive :
      (engine : ZoneEngine F) (bars : List (Bar F × F))
      → All (IsActive engine.cfg) (run engine bars).0
  unfolding update_all
  run-IsActive engine [] = tt
  run-IsActive engine ((bar, atr_value) ∷ []) =
      IsActive-All engine.cfg (map (λ z. update engine.cfg z bar atr_value) engine.zones)
  run-IsActive engine ((bar, atr_value) ∷ next ∷ bars) =
      run-IsActive (update_all engine bar atr_value).1 (next ∷ bars)

  run-zones :
      (engine : ZoneEngine F) (bars : List (Bar F × F))
      → (run engine bars).1.zones ≡ map (λ z. after_bars engine.cfg z bars) engine.zones
  unfolding update_all
  run-zones engine [] = sym (map_same engine.cfg engine.zones)
  run-zones engine ((bar, atr_value) ∷ []) = refl
  run-zones engine ((bar, atr_value) ∷ next ∷ bars) =
      run-zones (update_all engine bar atr_value).1 (next ∷ bars)
      ∙ after_all engine.cfg engine.zones bar atr_value (next ∷ bars)

  -- After any run of bars the engine's zones are its first ones, each advanced by `update` through
  -- the bars, and the zones returned last are not broken and have at most `expiry_bars` touches.
  run_lem :
      (engine : ZoneEngine F) (bars : List (Bar F × F))
      → All (IsActive engine.cfg) (run engine bars).0
        × ((run engine bars).1.zones ≡ map (λ z. after_bars engine.cfg z bars) engine.zones)
  run_lem engine bars = (run-IsActive engine bars, run-zones engine bars)
