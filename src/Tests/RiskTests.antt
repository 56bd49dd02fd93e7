-- ===== src/Tests/RiskTests.antt =====
-- The risk service on one account of 1000 and one symbol, with an empty book and a full one.
use vix_75_platform.Base.{
  ℕ, ◌≤◌, String, ◌≡◌, refl, Option, none, some, List, [], ◌∷◌, arith, format, if◌then◌else◌,
}
use vix_75_platform.Base.Dict.{Dict, text_eq}
use vix_75_platform.Base.Int.{ℤ, pos}
use vix_75_platform.Base.Result.{Result, ok, raise, value_error, type_error}
use vix_75_platform.Correlation.{get_or_create_correlation_id}
use vix_75_platform.Json.{JsonLib, JsonValue, num}
use vix_75_platform.Schemas.{Signal, buy, no_components, proposed, max_open_trades_reached}
use vix_75_platform.Sizing.{
  compute_lots, floor_to_step, validate_stop_distances, shrink, check_margin, clamp_lots,
  margin_verdict, loss_per_lot, risk_budget, grid,
}
use vix_75_platform.Sizing.Bounds.{IsWithin}
use vix_75_platform.RiskService.Exposure.{
  ExposureTracker, OpenPosition, position_fields, open_key, to_json, from_json, parse_direction,
  decode_all, refresh, limits, preflight, total_open_risk,
}
use vix_75_platform.RiskService.Exposure.Codec.{from_json-to_json}
use vix_75_platform.RiskService.Validator.{
  AccountSnapshot, symbol_key, load_account, load_symbol_constraints, check_stops,
}
use vix_75_platform.RiskService.Consumer.{
  Decision, approve, refuse, RiskSettings, RiskConsumer, size_position, risk_at_stop,
  decision_of_sizing, size_gate, context_gate, balance_hint, snapshot_gates, decide,
  stream_approved,
}
use vix_75_platform.RiskService.Handler.{RiskEnv, handle, handle_all, read_signal}
use vix_75_platform.RiskService.Gates.{IsApproved, decide-IsApproved}
use vix_75_platform.RiskService.Safety.{sizing_input, approved_lots_bounds}
use vix_75_platform.RiskService.Positions.{position_count, handle_all_bounded, handle_all_full}
use vix_75_platform.RiskService.Outcome.{Sends, handle_outcome, MeetsBadStep, handle_all_bad_step}
use vix_75_platform.Tests.Decimal.{decimal, decimal-IsOrdered}
use vix_75_platform.Tests.SizingTests.{spec, spec-StepsDown}
use vix_75_platform.Tests.Store.{Keyspace, empty, keyspace_redis, keyspace_laws}

abbrev position : OpenPosition ℤ
position = record {
  idempotency_key = "s0";
  signal_id = "s0";
  symbol = "V75";
  direction = buy;
  lots = pos 10;
  entry = pos 50000;
  sl = pos 49000;
  risk_amount = pos 100;
  opened_ts = "t";
}

abbrev spec_fields : ℤ → Dict (JsonValue ℤ)
spec_fields step =
    ("volume_min", num (pos 1))
    ∷ ("volume_max", num (pos 80))
    ∷ ("volume_step", num step)
    ∷ ("tick_size", num (pos 1))
    ∷ ("tick_value", num (pos 1))
    ∷ ("point", num (pos 1))
    ∷ ("stops_level_points", num (pos 10000))
    ∷ ("margin_per_lot", num (pos 10000))
    ∷ []

abbrev account_fields : Dict (JsonValue ℤ)
account_fields =
    ("balance", num (pos 100000))
    ∷ ("equity", num (pos 100000))
    ∷ ("margin_free", num (pos 10000))
    ∷ []

-- A library that knows four documents.
abbrev loaded : String → Result (Dict (JsonValue ℤ))
loaded s =
    if text_eq s "account"
    then ok account_fields
    else if text_eq s "spec"
    then ok (spec_fields (pos 1))
    else if text_eq s "stepless"
    then ok (spec_fields (pos 0))
    else if text_eq s "position"
    then ok (position_fields position)
    else raise type_error

instance abbrev documents : JsonLib ℤ
documents = record {
  dumps = λ _. "position";
  loads = loaded;
  parse_float = λ _. raise type_error;
  parse_int = λ _. raise type_error;
  trunc = λ x. pos 100;
}

abbrev signal : Signal ℤ
signal = record {
  id = "s1";
  created_ts = 0;
  symbol = "V75";
  ltf_timeframe = "M5";
  direction = buy;
  entry = pos 50000;
  sl = pos 49000;
  tp1 = pos 52000;
  tp2 = pos 53000;
  score = 6;
  max_score = 7;
  components = no_components;
  p_win = none;
  status = proposed;
}

abbrev settings : RiskSettings ℤ
settings = record { risk_pct_per_trade = pos 100; margin_usage_cap = pos 50 }

abbrev env : RiskEnv ℤ
env = record { parse_signal = λ _. ok (some signal); fresh_id = "c"; now_iso = "t" }

abbrev texts_with : String → String → Option String
texts_with s k =
    if text_eq k "mt5:account_info"
    then some "account"
    else if text_eq k "mt5:symbol:V75"
    then some s
    else none

abbrev keyspace : Keyspace
keyspace = record empty { texts = texts_with "spec" }

abbrev tracker : ℕ → ExposureTracker ℤ
tracker n = record { max_open_trades = n; max_total_risk_pct = pos 300; local = [] }

abbrev consumer : ℕ → Keyspace → RiskConsumer ℤ Keyspace
consumer n r = record {
  redis = r;
  tracker = tracker n;
  processed = 0;
  approved_count = 0;
  rejected_count = 0;
}

abbrev message : Dict String
message = ("signal", "s1") ∷ ("correlation_id", "m") ∷ []

-- With all that a decision computes by on its line.
run_decide : Keyspace → ExposureTracker ℤ → ExposureTracker ℤ × Result (Decision ℤ)
unfolding decide balance_hint load_account preflight refresh decode_all from_json parse_direction
    limits total_open_risk snapshot_gates load_symbol_constraints symbol_key format context_gate
    size_gate check_stops size_position compute_lots floor_to_step validate_stop_distances shrink
    check_margin clamp_lots margin_verdict loss_per_lot risk_budget grid decision_of_sizing
    risk_at_stop text_eq
run_decide r t = decide 200 settings r t signal

decided :
    decide 200 settings keyspace (tracker 3) signal ≡ (tracker 3, ok (approve (pos 50) (pos 500)))
unfolding run_decide
decided = refl

from_json-to_json_example : from_json (to_json position) ≡ ok position
unfolding text_eq
from_json-to_json_example = from_json-to_json position refl

abbrev account : AccountSnapshot ℤ
account = record { balance = pos 100000; equity = pos 100000; margin_free = pos 10000 }

decide-IsApproved_example : IsApproved 200 settings keyspace (tracker 3) (tracker 3) signal (pos 50)
decide-IsApproved_example =
    decide-IsApproved 200 settings keyspace (tracker 3) (tracker 3) signal {risk = pos 500} decided

approved_lots_bounds_example :
    IsWithin (sizing_input settings signal account spec) (pos 80) (some (pos 10000)) (pos 50)
unfolding run_decide
approved_lots_bounds_example =
    approved_lots_bounds decimal-IsOrdered 200 settings keyspace (tracker 3) (tracker 3) signal
      {risk = pos 500} account spec decided refl refl spec-StepsDown refl

abbrev batch : List (String × Dict String)
batch = ("1-0", message) ∷ ("2-0", message) ∷ []

handle_all_bounded_example :
    position_count (handle_all env 200 settings batch (consumer 1 keyspace)).0.redis ≤ 1
handle_all_bounded_example =
    handle_all_bounded keyspace_laws env 200 settings batch (consumer 1 keyspace) (omega arith)

-- A book of one position, with a limit of one.
abbrev full : Keyspace
full = record keyspace { hashes = λ h. if text_eq h open_key then ("s0", "position") ∷ [] else [] }

full_refuses : run_decide full (tracker 1) ≡ (
  record (tracker 1) { local = ("s0", position) ∷ [] },
  ok (refuse max_open_trades_reached "exposure limits reached"),
)
unfolding run_decide
full_refuses = refl

handle_all_full_example :
    let s' = (handle_all env 200 settings batch (consumer 1 full)).0 in
    (s'.tracker.max_open_trades ≤ position_count s'.redis) × (s'.redis.streams stream_approved ≡ [])
unfolding text_eq
handle_all_full_example =
    handle_all_full keyspace_laws env 200 settings batch (consumer 1 full) (omega arith)

handle_outcome_example :
    Sends env
      (get_or_create_correlation_id "c" message)
      signal
      (approve (pos 50) (pos 500))
      (consumer 3 keyspace)
      (handle env 200 settings message (consumer 3 keyspace)).0
unfolding read_signal text_eq
handle_outcome_example =
    handle_outcome env keyspace_laws 200 settings message (consumer 3 keyspace) signal (tracker 3)
      (approve (pos 50) (pos 500)) refl decided

-- The symbol's snapshot gives a volume step of zero.
abbrev stepless : Keyspace
stepless = record empty { texts = texts_with "stepless" }

stepless-MeetsBadStep : MeetsBadStep env settings (consumer 3 stepless) signal
unfolding run_decide
stepless-MeetsBadStep = record {
  balance = pos 100000;
  mirror = tracker 3;
  account = account;
  constraints = record spec { volume_step = pos 0 };
  balance_known = refl;
  refreshed = refl;
  room = refl;
  account_known = refl;
  constraints_known = refl;
  sizable = record {
    equity_pos = refl;
    risk_pos = refl;
    tick_size_pos = refl;
    tick_value_pos = refl;
    entry_pos = refl;
    stop_pos = refl;
    stops = refl;
    loss_pos = refl;
  };
  bad_step = refl;
}

handle_all_bad_step_example :
    let (s', acked, outcome) = handle_all env 200 settings batch (consumer 3 stepless) in
    (acked ≡ [])
    × (outcome ≡ raise (value_error "volume_step must be positive"))
    × (s'.redis ≡ stepless)
    × (s'.rejected_count ≡ 0)
unfolding read_signal text_eq
handle_all_bad_step_example =
    handle_all_bad_step env 200 settings "1-0" message (("2-0", message) ∷ []) (consumer 3 stepless)
      signal refl stepless-MeetsBadStep
