-- ===== src/Zones.antt =====
-- The online state machine of packages/vix_core/vix_core/zones.py. The detection of zones on numpy
-- arrays is not modelled: an engine starts from any list of zones.
pub mod Lifecycle
use vix_75_platform.Base.{
  ℕ, ◌+◌, ◌≤◌, Bool, true, false, not, ◌&&◌, List, map, leb, if◌then◌else◌, filter,
}
use vix_75_platform.Float.{Float, nought, max, min}
use vix_75_platform.Schemas.{
  Bar, Zone, ZoneKind, supply, demand, ZoneState, fresh, tested, mitigated, broken,
}

pub record ZoneEngineConfig (F : Type 0) : Type 0 where
  pub impulse_body_atr_mult : F
  pub max_base_candles : ℕ
  pub mitigation_level : F
  pub break_buffer_atr : F
  pub expiry_bars : ℕ
  pub max_zones : ℕ
  pub atr_period : ℕ

pub record ZoneEngine (F : Type 0) : Type 0 where
  pub cfg : ZoneEngineConfig F
  pub zones : List (Zone F)

abbrev pub is_broken : ZoneState → Bool
is_broken broken = true
is_broken _ = false

abbrev pub is_fresh : ZoneState → Bool
is_fresh fresh = true
is_fresh _ = false

module _ {F : Type 0} ⦃d : Float F⦄ where
  -- `bar.high >= zone.bottom and bar.low <= zone.top`
  abbrev pub touches_zone : Zone F → Bar F → Bool
  touches_zone zone bar = d.le zone.bottom bar.high && d.le bar.low zone.top

  abbrev pub clamped : Zone F → Bar F → F
  clamped zone bar = min (max bar.close zone.bottom) zone.top

  -- How far the close went into the zone, from the edge through which the price enters.
  abbrev pub depth : ZoneKind → Zone F → Bar F → F
  depth demand zone bar = d.sub zone.top (clamped zone bar)
  depth supply zone bar = d.sub (clamped zone bar) zone.bottom

  abbrev pub breaks : ZoneKind → Zone F → Bar F → F → Bool
  breaks demand zone bar buffer = d.lt bar.close (d.sub zone.bottom buffer)
  breaks supply zone bar buffer = d.lt (d.add zone.top buffer) bar.close

  abbrev pub is_deep : ZoneEngineConfig F → Zone F → Bar F → Bool
  is_deep cfg zone bar =
      let height = d.sub zone.top zone.bottom in
      d.lt nought height && d.le (d.mul cfg.mitigation_level height) (depth zone.kind zone bar)

  abbrev pub touch : Bool → Zone F → Zone F
  touch deep zone = record zone {
    touches = zone.touches + 1;
    state = if deep then mitigated else if is_fresh zone.state then tested else zone.state;
  }

  unfoldable pub update : ZoneEngineConfig F → Zone F → Bar F → F → Zone F
  update cfg zone bar atr_value =
      let buffer = d.mul cfg.break_buffer_atr atr_value in
      if is_broken zone.state
      then zone
      else if breaks zone.kind zone bar buffer
      then record zone { state = broken }
      else if touches_zone zone bar
      then touch (is_deep cfg zone bar) zone
      else zone

  -- `z.state is not ZoneState.BROKEN and z.touches <= expiry_bars`
  abbrev pub is_active : ZoneEngineConfig F → Zone F → Bool
  is_active cfg zone = not (is_broken zone.state) && leb zone.touches cfg.expiry_bars

  pub update_all : ZoneEngine F → Bar F → F → List (Zone F) × ZoneEngine F
  update_all engine bar atr_value =
      let zones = map (λ z. update engine.cfg z bar atr_value) engine.zones in
      (filter (is_active engine.cfg) zones, record engine { zones = zones })
