-- ===== src/RiskService/Exposure.antt =====
-- services/risk-service/app/exposure.py: the open positions, in Redis and in a local mirror.
pub mod Codec
use vix_75_platform.Base.{
  ℕ, String, Bool, true, false, Option, none, some, List, [], ◌∷◌, leb, if◌then◌else◌, length,
  is_some,
}
use vix_75_platform.Base.Dict.{Dict, lookup, insert, erase, values, text_eq}
use vix_75_platform.Base.Result.{Result, ok, raise, value_error, ◌>>=◌}
use vix_75_platform.Float.{Float, nought}
use vix_75_platform.Json.{JsonLib, JsonValue, num, text, get_item, str_of, float_of}
use vix_75_platform.Redis.{Redis}
use vix_75_platform.Schemas.{
  Direction, buy, sell, show_direction, RejectionReason, max_open_trades_reached,
  max_total_risk_exceeded,
}

abbrev pub open_key : String
open_key = "risk:open_positions"

pub record OpenPosition (F : Type 0) : Type 0 where
  pub idempotency_key : String
  pub signal_id : String
  pub symbol : String
  pub direction : Direction
  pub lots : F
  pub entry : F
  pub sl : F
  pub risk_amount : F
  pub opened_ts : String

pub record ExposureTracker (F : Type 0) : Type 0 where
  pub max_open_trades : ℕ
  pub max_total_risk_pct : F
  pub local : Dict (OpenPosition F)

-- `Direction(s)`
unfoldable pub parse_direction : String → Result Direction
parse_direction s =
    if text_eq s "BUY"
    then ok buy
    else if text_eq s "SELL"
    then ok sell
    else raise (value_error "not a valid Direction")

module _ {F : Type 0} where
  abbrev pub position_fields : OpenPosition F → Dict (JsonValue F)
  position_fields p =
      ("idempotency_key", text p.idempotency_key)
      ∷ ("signal_id", text p.signal_id)
      ∷ ("symbol", text p.symbol)
      ∷ ("direction", text (show_direction p.direction))
      ∷ ("lots", num p.lots)
      ∷ ("entry", num p.entry)
      ∷ ("sl", num p.sl)
      ∷ ("risk_amount", num p.risk_amount)
      ∷ ("opened_ts", text p.opened_ts)
      ∷ []

  pub to_json : ⦃j : JsonLib F⦄ → OpenPosition F → String
  to_json ⦃j⦄ p = j.dumps (position_fields p)

  unfoldable pub open_count : ExposureTracker F → ℕ
  open_count t = length t.local

module _ {F : Type 0} ⦃d : Float F⦄ ⦃j : JsonLib F⦄ where
  abbrev pub position_of : Dict (JsonValue F) → Result (OpenPosition F)
  position_of o = do
    idempotency_key ← get_item o "idempotency_key"
    signal_id ← get_item o "signal_id"
    symbol ← get_item o "symbol"
    direction ← parse_direction (str_of (← get_item o "direction"))
    lots ← float_of (← get_item o "lots")
    entry ← float_of (← get_item o "entry")
    sl ← float_of (← get_item o "sl")
    risk_amount ← float_of (← get_item o "risk_amount")
    opened_ts ← get_item o "opened_ts"
    ok (record {
      idempotency_key = str_of idempotency_key;
      signal_id = str_of signal_id;
      symbol = str_of symbol;
      direction = direction;
      lots = lots;
      entry = entry;
      sl = sl;
      risk_amount = risk_amount;
      opened_ts = str_of opened_ts;
    })

  unfoldable pub from_json : String → Result (OpenPosition F)
  from_json raw = j.loads raw >>= position_of

  sum_risk : F → List (OpenPosition F) → F
  sum_risk acc [] = acc
  sum_risk acc (p ∷ ps) = sum_risk (d.add acc p.risk_amount) ps

  unfoldable pub total_open_risk : ExposureTracker F → F
  unfolding sum_risk
  total_open_risk t = sum_risk nought (values t.local)

  -- `{k: OpenPosition.from_json(v) for k, v in decoded.items()}`
  unfoldable pub decode_all : Dict String → Result (Dict (OpenPosition F))
  decode_all [] = ok []
  decode_all ((k, v) ∷ raw) =
      let rest = decode_all raw in from_json v >>= λ p. rest >>= λ ps. ok ((k, p) ∷ ps)

  -- Why a new position is refused, if it is, on the refreshed mirror.
  unfoldable pub limits : F → ExposureTracker F → Option RejectionReason
  unfolding open_count
  limits balance t =
      let total_risk_pct =
        if d.lt nought balance
        then d.mul (d.div (total_open_risk t) balance) (d.lit 100 0)
        else nought in
      if leb t.max_open_trades (open_count t)
      then some max_open_trades_reached
      else if d.le t.max_total_risk_pct total_risk_pct
      then some max_total_risk_exceeded
      else none

  module _ {R : Type 0} ⦃c : Redis R⦄ where
    unfoldable pub refresh : Option R → ExposureTracker F → Result (ExposureTracker F)
    refresh none t = ok t
    refresh (some r) t =
        decode_all (c.hgetall open_key r) >>= λ positions. ok (record t { local = positions })

    -- The tracker that is left, and the answer of the limits.
    unfoldable pub preflight :
        Option R → F → ExposureTracker F → ExposureTracker F × Result (Option RejectionReason)
    preflight r balance t = elim (refresh r t) [
      | raise e ↦ (t, raise e)
      | ok t' ↦ (t', ok (limits balance t'))
    ]

    unfoldable pub register :
        OpenPosition F → Option R → ExposureTracker F → Option R × ExposureTracker F
    register p none t = (none, record t { local = insert p.idempotency_key p t.local })
    register p (some r) t = (
      some (c.hset open_key p.idempotency_key (to_json p) r),
      record t { local = insert p.idempotency_key p t.local },
    )

    -- The last part says whether the local mirror held the key.
    unfoldable pub release :
        String → Option R → ExposureTracker F → Option R × ExposureTracker F × Bool
    release k none t = (none, record t { local = erase k t.local }, is_some (lookup k t.local))
    release k (some r) t = (
      some (c.hdel open_key k r),
      record t { local = erase k t.local },
      is_some (lookup k t.local),
    )
