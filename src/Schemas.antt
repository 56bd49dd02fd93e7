-- ===== src/Schemas.antt =====
-- packages/vix_core/vix_core/schemas.py: the records that the services exchange. A `datetime` is
-- its instant as a number, and an id is its text.
pub mod Uuid
use vix_75_platform.Base.{ℕ, String, Bool, Option, false, none}

abbrev pub Timestamp : Type 0
Timestamp = ℕ

pub record Bar (F : Type 0) : Type 0 where
  pub ts : Timestamp
  pub open_price : F
  pub high : F
  pub low : F
  pub close : F
  pub tick_volume : ℕ

pub data ZoneKind : Type 0 where
  supply demand : ZoneKind

pub data ZoneState : Type 0 where
  fresh tested mitigated broken : ZoneState

pub record Zone (F : Type 0) : Type 0 where
  pub id : String
  pub kind : ZoneKind
  pub top : F
  pub bottom : F
  pub created_ts : Timestamp
  pub state : ZoneState
  pub touches : ℕ
  pub score : ℕ

pub data RegimeState : Type 0 where
  s0_range s1_trend_up s2_trend_down : RegimeState

-- `str(regime)`
abbrev pub show_regime : RegimeState → String
show_regime s0_range = "S0_range"
show_regime s1_trend_up = "S1_trend_up"
show_regime s2_trend_down = "S2_trend_down"

pub data Direction : Type 0 where
  buy sell : Direction

-- `str(direction)`
abbrev pub show_direction : Direction → String
show_direction buy = "BUY"
show_direction sell = "SELL"

pub data RejectionReason : Type 0 where
  invalid_signal account_data_unavailable max_open_trades_reached : RejectionReason
  max_total_risk_exceeded stops_level_violation risk_too_small margin_exceeded : RejectionReason

pub data SignalStatus : Type 0 where
  proposed approved rejected executed shadow_filled : SignalStatus

pub record ConfluenceComponents : Type 0 where
  pub htf_trend_aligned : Bool
  pub zone_touch : Bool
  pub bbma_confirm : Bool
  pub rsi_divergence : Bool
  pub regime_ok : Bool
  pub meta_label_ok : Bool

abbrev pub no_components : ConfluenceComponents
no_components = record {
  htf_trend_aligned = false;
  zone_touch = false;
  bbma_confirm = false;
  rsi_divergence = false;
  regime_ok = false;
  meta_label_ok = false;
}

pub record Signal (F : Type 0) : Type 0 where
  pub id : String
  pub created_ts : Timestamp
  pub symbol : String
  pub ltf_timeframe : String
  pub direction : Direction
  pub entry : F
  pub sl : F
  pub tp1 : F
  pub tp2 : F
  pub score : ℕ
  pub max_score : ℕ
  pub components : ConfluenceComponents
  pub p_win : Option F
  pub status : SignalStatus

pub record OrderRequest (F : Type 0) : Type 0 where
  pub idempotency_key : String
  pub signal_id : String
  pub symbol : String
  pub direction : Direction
  pub lots : F
  pub entry : F
  pub sl : F
  pub tp : F
  pub deviation_points : ℕ

pub record OrderResult (F : Type 0) : Type 0 where
  pub idempotency_key : String
  pub accepted : Bool
  pub retcode : Option ℕ
  pub retcode_description : Option String
  pub ticket : Option ℕ
  pub price : Option F
