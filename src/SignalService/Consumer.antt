-- ===== src/SignalService/Consumer.antt =====
-- services/signal-service/app/consumer.py: from a computed feature row to a published signal. Log lines
-- and the counters of the metrics are left out.
pub mod Publishes
pub mod Handover
use vix_75_platform.Base.{
  ℕ, ◌+◌, String, Bool, true, false, Option, none, some, List, [], ◌∷◌, any, if◌then◌else◌,
}
use vix_75_platform.Base.Dict.{Dict, lookup, text_eq}
use vix_75_platform.Base.Result.{Result, ok, raise, type_error, attribute_error, ◌>>=◌}
use vix_75_platform.Correlation.{get_or_create_correlation_id, stream_fields}
use vix_75_platform.Float.{Float, nought, max}
use vix_75_platform.Json.{JsonLib, JsonValue, null, bool, num, text, str_of}
use vix_75_platform.Redis.{Redis}
use vix_75_platform.Schemas.{RegimeState, show_regime, Signal}
use vix_75_platform.SignalService.Engine.{
  LtfSnapshot, MarketContext, SignalEngine, evaluate, resolve_regime,
}
use vix_75_platform.SignalService.Features.{
  SignalDatabase, fetch_ltf_row, fetch_htf_trend, insert_signal,
}

abbrev pub stream_generated : String
stream_generated = "signal.generated"

-- What the service takes from outside: the ids that `uuid4` gives to the correlation and to the signal,
-- Python's `repr`, and the JSON text that pydantic writes for a signal.
pub record SignalEnv (F : Type 0) : Type 0 where
  pub fresh_id : String
  pub signal_id : String
  pub repr : String → String
  pub dump_signal : Signal F → String

pub record SignalSettings : Type 0 where
  pub ltf_timeframes : List String
  pub htf_timeframes : List String

pub record SignalConsumer (F R : Type 0) : Type 0 where
  pub redis : R
  pub db : SignalDatabase F
  pub engine : SignalEngine F
  pub processed : ℕ
  pub signals_fired : ℕ

abbrev pub Message : Type 0
Message = String × Dict String

-- `decoded.get(k, "")`
abbrev pub field_or_empty : String → Dict String → String
field_or_empty k decoded = elim (lookup k decoded) [ some v ↦ v | none ↦ "" ]

-- `RegimeState(candidate).value`, or "unknown"
abbrev pub known_regime : Option RegimeState → String
known_regime none = "unknown"
known_regime (some r) = show_regime r

module _ {F : Type 0} where
  -- A document that is no object has no `get`.
  abbrev pub object_of : Result (Dict (JsonValue F)) → Result (Dict (JsonValue F))
  object_of (raise type_error) = raise attribute_error
  object_of r = r

module _ {F : Type 0} ⦃d : Float F⦄ where
  -- The number of a JSON value; a Boolean is an `int`.
  abbrev pub number_of : Option (JsonValue F) → Option F
  number_of (some (num x)) = some x
  number_of (some (bool b)) = some (if b then d.lit 1 0 else nought)
  number_of _ = none

  abbrev pub regime_field : Dict (JsonValue F) → String
  regime_field fields = elim (lookup "regime" fields) [ some v ↦ str_of v | none ↦ "" ]

  abbrev pub p_win_of : Option F → Option F → Option F
  p_win_of (some p_up) (some p_down) = some (d.div p_up (max (d.add p_up p_down) (d.lit 1 9)))
  p_win_of _ _ = none

abbrev pub regime_of : (F : Type 0) ⦃d : Float F⦄ ⦃j : JsonLib F⦄ → Option String → Result String
regime_of F none = ok "unknown"
regime_of F ⦃d⦄ ⦃j⦄ (some raw) = object_of {F = F} (j.loads raw) >>= λ fields.
    ok (known_regime (resolve_regime (regime_field fields)))

module _ {F : Type 0} ⦃d : Float F⦄ ⦃j : JsonLib F⦄ where
  abbrev pub meta_of : Option String → Result (Option F)
  meta_of none = ok none
  meta_of (some raw) = object_of (j.loads raw) >>= λ fields.
      ok (p_win_of (number_of (lookup "p_up" fields)) (number_of (lookup "p_down" fields)))

module _ {F R : Type 0} ⦃d : Float F⦄ ⦃j : JsonLib F⦄ ⦃c : Redis R⦄ where
  unfoldable pub market_context :
      String → SignalSettings → R → SignalDatabase F → Result (MarketContext F)
  market_context symbol settings r db = do
    regime ← regime_of F (c.get "regime:current" r)
    p_win ← meta_of (c.get "meta_label:current" r)
    ok (record {
      htf_trend = fetch_htf_trend symbol settings.htf_timeframes db;
      regime = regime;
      p_win = p_win;
      rsi_divergence = none;
    })

module _ {F : Type 0} (env : SignalEnv F) where
  pub signal_entry : String → Signal F → Dict String
  signal_entry cid signal =
      stream_fields env.fresh_id (("signal", env.dump_signal signal) ∷ []) (some cid)

module _ {F R : Type 0} ⦃d : Float F⦄ ⦃j : JsonLib F⦄ ⦃c : Redis R⦄ (env : SignalEnv F) where
  -- After the insertion, whether or not the row was new.
  abbrev pub publish :
      String
      → Signal F
      → SignalConsumer F R
      → Result (Bool × SignalDatabase F)
      → SignalConsumer F R × Result (Unit {0})
  publish cid signal s (raise e) = (s, raise e)
  publish cid signal s (ok (_, db)) = (
    record s {
      db = db;
      redis = c.xadd stream_generated (signal_entry env cid signal) s.redis;
      processed = s.processed + 1;
      signals_fired = s.signals_fired + 1;
    },
    ok tt,
  )

  abbrev pub emit :
      String → SignalConsumer F R → Option (Signal F) → SignalConsumer F R × Result (Unit {0})
  emit cid s none = (s, ok tt)
  emit cid s (some signal) = publish cid signal s (insert_signal signal s.db)

  abbrev pub judge_row :
      String
      → MarketContext F
      → SignalConsumer F R
      → Result (Option (LtfSnapshot F))
      → SignalConsumer F R × Result (Unit {0})
  judge_row cid market s (raise e) = (s, raise e)
  judge_row cid market s (ok none) = (s, ok tt)
  judge_row cid market s (ok (some ltf)) =
      emit cid s (evaluate env.repr s.engine env.signal_id ltf market).signal

  abbrev pub with_context :
      String
      → (symbol timeframe : String) → SignalConsumer F R
      → Result (MarketContext F)
      → SignalConsumer F R × Result (Unit {0})
  with_context cid symbol timeframe s (raise e) = (s, raise e)
  with_context cid symbol timeframe s (ok market) =
      judge_row cid market s (fetch_ltf_row symbol timeframe s.db)

  unfoldable pub handle :
      SignalSettings → Dict String → SignalConsumer F R → SignalConsumer F R × Result (Unit {0})
  handle settings decoded s =
      let cid = get_or_create_correlation_id env.fresh_id decoded in
      let symbol = field_or_empty "symbol" decoded in
      let timeframe = field_or_empty "timeframe" decoded in
      if any (λ t. text_eq t timeframe) settings.ltf_timeframes
      then with_context cid symbol timeframe s (market_context symbol settings s.redis s.db)
      else (s, ok tt)

  -- The loop of `drain` over one batch: the state, the messages acknowledged, and the exception that
  -- ended the batch, if one did.
  unfoldable pub handle_all :
      SignalSettings
      → List Message
      → SignalConsumer F R
      → SignalConsumer F R × List String × Result (Unit {0})
  handle_all settings [] s = (s, [], ok tt)
  handle_all settings ((id, fields) ∷ messages) s =
      let handled = handle settings fields s in
      let rest = handle_all settings messages handled.0 in
      elim handled.1 [ raise e ↦ (handled.0, [], raise e) | ok _ ↦ (rest.0, id ∷ rest.1, rest.2) ]
