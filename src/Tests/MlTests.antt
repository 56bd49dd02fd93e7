-- ===== src/Tests/MlTests.antt =====
-- A regime that the worker caches, and a feature event on which the signal service would fire else.
use vix_75_platform.Base.{◌≡◌, refl, String, some, [], ◌∷◌, inr}
use vix_75_platform.Base.Dict.{Dict, text_eq}
use vix_75_platform.Base.Int.{ℤ, pos}
use vix_75_platform.Base.Result.{ok, raise, type_error}
use vix_75_platform.Correlation.{get_or_create_correlation_id}
use vix_75_platform.Json.{JsonLib, JsonValue}
use vix_75_platform.SignalService.Consumer.{SignalEnv, SignalSettings, SignalConsumer}
use vix_75_platform.SignalService.Consumer
use vix_75_platform.MlService.Worker.{
  MlEnv, Inference, InferenceWorker, canonical_order, regime_fields, handle,
}
use vix_75_platform.MlService.Worker.Regime.{handle_silent}
use vix_75_platform.Tests.Decimal.{decimal, decimal-IsOrdered}
use vix_75_platform.Tests.Store.{Keyspace, empty, keyspace_redis, keyspace_laws}

-- State 2 has the highest mean return and is the most likely one.
abbrev inference : Inference ℤ
inference = record {
  ts_iso = "t";
  posterior = λ s. pos s;
  best_state = 2;
  p_up = pos 60;
  p_down = pos 30;
}

abbrev document : Dict (JsonValue ℤ)
document = regime_fields "V75" "M15" "m" inference "S1" 1 2 0

instance abbrev documents : JsonLib ℤ
documents = record {
  dumps = λ _. "document";
  loads = λ _. ok document;
  parse_float = λ _. raise type_error;
  parse_int = λ _. raise type_error;
  trunc = λ x. x;
}

abbrev env : MlEnv ℤ
env = record { fresh_id = "c"; infer = λ _ _. ok (some inference) }

abbrev signal_env : SignalEnv ℤ
signal_env = record {
  fresh_id = "c";
  signal_id = "0123456789abcdef0123456789abcdef";
  repr = λ s. s;
  dump_signal = λ _. "signal";
}

abbrev worker : InferenceWorker Keyspace
worker = record { redis = empty; order = some (canonical_order 0 1 2); processed = 0 }

abbrev event : Dict String
event = ("symbol", "V75") ∷ ("timeframe", "M15") ∷ ("correlation_id", "m") ∷ []

handle_silent_example :
    (w' : InferenceWorker Keyspace) × (handle env event worker ≡ ok w')
    × ((settings : SignalSettings) (decoded : Dict String) (s : SignalConsumer ℤ Keyspace)
        → s.redis ≡ w'.redis
        → (Consumer.handle signal_env settings decoded s).0 ≡ s)
unfolding text_eq get_or_create_correlation_id
handle_silent_example =
    handle_silent keyspace_laws decimal-IsOrdered env signal_env 0 1 2 event worker inference refl
      refl refl (inr (inr refl)) refl
