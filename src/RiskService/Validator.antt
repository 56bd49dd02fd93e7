-- ===== src/RiskService/Validator.antt =====
-- services/risk-service/app/validator.py: the account and symbol snapshots that the MT5 bridge
-- leaves in Redis, and the stops gate. What is missing or malformed is no snapshot.
use vix_75_platform.Base.{
  String, Option, none, some, List, [], ◌∷◌, if◌then◌else◌, all, is_some, format,
}
use vix_75_platform.Base.Dict.{Dict, lookup}
use vix_75_platform.Base.Result.{Result, ok, raise, ◌>>=◌, none_on_lookup_error}
use vix_75_platform.Float.{Float}
use vix_75_platform.Json.{JsonLib, JsonValue, get_item, float_of, int_of}
use vix_75_platform.Redis.{Redis}
use vix_75_platform.Schemas.{Signal}
use vix_75_platform.Sizing.{SymbolConstraints, validate_stop_distances}

abbrev pub account_key : String
account_key = "mt5:account_info"

-- `SYMBOL_KEY_TEMPLATE.format(symbol=symbol)`
unfoldable pub symbol_key : String → String
symbol_key symbol = format ("mt5:symbol:" ∷ symbol ∷ [])

abbrev pub required_spec_fields : List String
required_spec_fields =
    "volume_min" ∷ "volume_max" ∷ "volume_step" ∷ "tick_size" ∷ "tick_value" ∷ "point"
    ∷ "stops_level_points" ∷ "margin_per_lot" ∷ []

pub record AccountSnapshot (F : Type 0) : Type 0 where
  pub balance : F
  pub equity : F
  pub margin_free : F

-- `self._get(key)`
abbrev pub get_raw : {R : Type 0} ⦃c : Redis R⦄ → String → Option R → Option String
get_raw k none = none
get_raw ⦃c⦄ k (some r) = c.get k r

-- What the `except` clause leaves of a loaded optional value.
abbrev pub join_none {ℓ} : {A : Type ℓ} → Result (Option (Option A)) → Result (Option A)
join_none (ok none) = ok none
join_none (ok (some a)) = ok a
join_none (raise e) = raise e

module _ {F : Type 0} ⦃d : Float F⦄ ⦃j : JsonLib F⦄ where
  abbrev account_of : Dict (JsonValue F) → Result (AccountSnapshot F)
  account_of o = do
    balance ← float_of (← get_item o "balance")
    equity ← float_of (← get_item o "equity")
    margin_free ← float_of (← get_item o "margin_free")
    ok (record { balance = balance; equity = equity; margin_free = margin_free })

  abbrev constraints_of : Dict (JsonValue F) → Result (SymbolConstraints F)
  constraints_of o = do
    volume_min ← float_of (← get_item o "volume_min")
    volume_max ← float_of (← get_item o "volume_max")
    volume_step ← float_of (← get_item o "volume_step")
    tick_size ← float_of (← get_item o "tick_size")
    tick_value ← float_of (← get_item o "tick_value")
    point ← float_of (← get_item o "point")
    stops_level_points ← int_of (← get_item o "stops_level_points")
    margin_per_lot ← float_of (← get_item o "margin_per_lot")
    ok (record {
      volume_min = volume_min;
      volume_max = volume_max;
      volume_step = volume_step;
      tick_size = tick_size;
      tick_value = tick_value;
      point = point;
      stops_level_points = stops_level_points;
      margin_per_lot = margin_per_lot;
    })

  -- The snapshot of a complete spec; `none` where a field is missing.
  abbrev spec_of : Dict (JsonValue F) → Result (Option (SymbolConstraints F))
  spec_of o =
      if all (λ f. is_some (lookup f o)) required_spec_fields
      then (constraints_of o >>= λ c. ok (some c))
      else ok none

  module _ {R : Type 0} ⦃c : Redis R⦄ where
    unfoldable pub load_account : Option R → Result (Option (AccountSnapshot F))
    load_account r = elim (get_raw account_key r) [
      | none ↦ ok none
      | some raw ↦ none_on_lookup_error (j.loads raw >>= account_of)
    ]

    unfoldable pub load_symbol_constraints :
        Option R → String → Result (Option (SymbolConstraints F))
    load_symbol_constraints r symbol = elim (get_raw (symbol_key symbol) r) [
      | none ↦ ok none
      | some raw ↦ join_none (none_on_lookup_error (j.loads raw >>= spec_of))
    ]

module _ {F : Type 0} ⦃d : Float F⦄ where
  unfoldable pub check_stops : Signal F → SymbolConstraints F → Option String
  check_stops signal constraints =
      validate_stop_distances signal.entry signal.sl signal.tp1 constraints
