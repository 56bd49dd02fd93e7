-- ===== src/Execution/Orders.antt =====
-- services/execution-service/app/consumer.py: how an order is read from a message, and the
-- stream entries, updates and audit lines written for an outcome.
use vix_75_platform.Base.{
  ℕ, String, Bool, Option, none, some, List, [], ◌∷◌, all, is_some, format, if◌then◌else◌,
}
use vix_75_platform.Base.Dict.{Dict, lookup, merge, text_eq}
use vix_75_platform.Base.Int.{ℤ, pos}
use vix_75_platform.Base.Result.{Result, ok, raise, value_error, type_error, ◌>>=◌}
use vix_75_platform.Correlation.{stream_fields}
use vix_75_platform.Float.{Float, nought}
use vix_75_platform.Json.{JsonLib, JsonValue, null, bool, num, text}
use vix_75_platform.Schemas.{OrderRequest, OrderResult, show_direction}
use vix_75_platform.Execution.Executor.{ExecOutcome}
use vix_75_platform.Execution.Trades.{AuditEntry, StatusUpdate}

abbrev pub stream_filled : String
stream_filled = "order.filled"

abbrev pub stream_rejected : String
stream_rejected = "order.rejected"

abbrev pub result_ttl_s : ℕ
result_ttl_s = 604800

-- `RESULT_KEY_TEMPLATE.format(key=key)`
unfoldable pub result_key : String → String
result_key key = format ("result:order:" ∷ key ∷ [])

-- What the service takes from outside: pydantic's `model_validate` (`none` where it raises), the text
-- of `uuid4().hex`, and the clock as a text and in seconds.
pub record ExecutionEnv (F : Type 0) : Type 0 where
  pub validate_order : Dict (JsonValue F) → Option (OrderRequest F)
  pub fresh_id : String
  pub now : String
  pub clock : ℕ

abbrev pub order_keys : List String
order_keys =
    "idempotency_key" ∷ "signal_id" ∷ "symbol" ∷ "direction" ∷ "lots" ∷ "entry" ∷ "sl" ∷ "tp" ∷ []

module _ {F : Type 0} where
  -- `{k: decoded[k] for k in keys}`, once every key is there.
  abbrev pub picked : List String → Dict String → Dict (JsonValue F)
  picked [] decoded = []
  picked (k ∷ keys) decoded = elim (lookup k decoded) [
    | some v ↦ (k, text v) ∷ picked keys decoded
    | none ↦ picked keys decoded
  ]

  -- An optional value in JSON.
  abbrev pub json_text : Option String → JsonValue F
  json_text none = null
  json_text (some s) = text s

  abbrev pub json_float : Option F → JsonValue F
  json_float none = null
  json_float (some x) = num x

  -- `if not data: return None`, and the validation.
  abbrev pub validated : ExecutionEnv F → Dict (JsonValue F) → Option (OrderRequest F)
  validated env [] = none
  validated env (field ∷ fields) = env.validate_order (field ∷ fields)

module _ {F : Type 0} ⦃d : Float F⦄ where
  abbrev pub json_int : Option ℕ → JsonValue F
  json_int none = null
  json_int (some n) = num (d.of_int (pos n))

  abbrev pub result_view : OrderResult F → Dict (JsonValue F)
  result_view res =
      ("accepted", bool res.accepted)
      ∷ ("retcode", json_int res.retcode)
      ∷ ("retcode_description", json_text res.retcode_description)
      ∷ ("ticket", json_int res.ticket)
      ∷ ("price", json_float res.price)
      ∷ []

  -- `order.model_dump(mode="json")`
  abbrev pub order_view : OrderRequest F → Dict (JsonValue F)
  order_view o =
      ("idempotency_key", text o.idempotency_key)
      ∷ ("signal_id", text o.signal_id)
      ∷ ("symbol", text o.symbol)
      ∷ ("direction", text (show_direction o.direction))
      ∷ ("lots", num o.lots)
      ∷ ("entry", num o.entry)
      ∷ ("sl", num o.sl)
      ∷ ("tp", num o.tp)
      ∷ ("deviation_points", json_int (some o.deviation_points))
      ∷ []

  -- `res.price or 0.0`, as a text
  abbrev pub show_price : Option F → String
  show_price none = d.show nought
  show_price (some p) = d.show p

-- `res.ticket or 0`
abbrev pub or_zero : Option ℕ → ℕ
or_zero none = 0
or_zero (some n) = n

abbrev pub or_unknown : Option String → String
or_unknown none = "UNKNOWN"
or_unknown (some s) = if text_eq s "" then "UNKNOWN" else s

abbrev pub show_optional : Option String → String
show_optional none = "None"
show_optional (some s) = s

abbrev pub mode : Bool → String
mode dry_run = if dry_run then "dry_run" else "live"

module _ {F : Type 0} ⦃d : Float F⦄ where
  abbrev pub filled_update : Bool → ExecOutcome F → StatusUpdate F
  filled_update dry_run outcome = record {
    retcode = outcome.result.retcode;
    desc = outcome.result.retcode_description;
    ticket = outcome.result.ticket;
    price = outcome.result.price;
    extra = ("attempts", json_int (some outcome.attempts)) ∷ ("mode", text (mode dry_run)) ∷ [];
  }

  abbrev pub rejected_update : Bool → ExecOutcome F → StatusUpdate F
  rejected_update dry_run outcome = record {
    retcode = outcome.result.retcode;
    desc = outcome.result.retcode_description;
    ticket = none;
    price = none;
    extra =
        ("attempts", json_int (some outcome.attempts))
        ∷ ("mt5_last_error", json_text outcome.last_error)
        ∷ ("mode", text (mode dry_run))
        ∷ [];
  }

  abbrev pub audit_entry : OrderRequest F → ExecOutcome F → AuditEntry F
  audit_entry order outcome = record {
    actor = "execution-service";
    action = if outcome.result.accepted then "order.executed" else "order.failed";
    subject = order.idempotency_key;
    outcome = if outcome.result.accepted then "ok" else "error";
    payload = result_view outcome.result;
    error = if outcome.result.accepted then none else outcome.last_error;
  }

module _ {F : Type 0} ⦃d : Float F⦄ ⦃j : JsonLib F⦄ (env : ExecutionEnv F) where
  -- `json.loads(blob)`: a document that is no text of an object is refused by the validation.
  abbrev pub order_of_blob : Result (Dict (JsonValue F)) → Result (Option (OrderRequest F))
  order_of_blob (ok fields) = ok (validated env fields)
  order_of_blob (raise (value_error _)) = ok none
  order_of_blob (raise type_error) = ok none
  order_of_blob (raise e) = raise e

  -- `int(decoded.get("deviation_points", 30))`, which no handler guards.
  abbrev pub deviation_of : Dict String → Result ℤ
  deviation_of decoded = elim (lookup "deviation_points" decoded) [
    | none ↦ ok (pos 30)
    | some s ↦ j.parse_int s
  ]

  abbrev pub order_of_fields : Dict String → Result (Option (OrderRequest F))
  order_of_fields decoded =
      if all (λ k. is_some (lookup k decoded)) order_keys
      then (deviation_of decoded >>= λ n. ok (
          validated env
            (merge (picked order_keys decoded) (("deviation_points", num (d.of_int n)) ∷ []))))
      else ok none

  unfoldable pub parse_order : Dict String → Result (Option (OrderRequest F))
  parse_order decoded = elim (lookup "order" decoded) [
    | some blob ↦ order_of_blob (j.loads blob)
    | none ↦ order_of_fields decoded
  ]

  unfoldable pub filled_entry : String → OrderRequest F → OrderResult F → Dict String
  filled_entry cid order res =
      stream_fields env.fresh_id
        (("signal", j.dumps (merge (order_view order) (result_view res)))
          ∷ ("idempotency_key", order.idempotency_key)
          ∷ ("signal_id", order.signal_id)
          ∷ ("symbol", order.symbol)
          ∷ ("direction", show_direction order.direction)
          ∷ ("lots", d.show order.lots)
          ∷ ("entry", d.show order.entry)
          ∷ ("sl", d.show order.sl)
          ∷ ("tp", d.show order.tp)
          ∷ ("ticket", d.show_int (pos (or_zero res.ticket)))
          ∷ ("fill_price", show_price res.price)
          ∷ [])
        (some cid)

  unfoldable pub rejected_entry : String → OrderRequest F → ExecOutcome F → Dict String
  rejected_entry cid order outcome =
      stream_fields env.fresh_id
        (("signal_id", order.signal_id)
          ∷ ("idempotency_key", order.idempotency_key)
          ∷ ("symbol", order.symbol)
          ∷ ("direction", show_direction order.direction)
          ∷ ("rejected_reason", or_unknown outcome.result.retcode_description)
          ∷ (
            "detail",
            format (
                "attempts="
                ∷ d.show_int (pos outcome.attempts)
                ∷ " last_error="
                ∷ show_optional outcome.last_error
                ∷ []),
          )
          ∷ [])
        (some cid)
