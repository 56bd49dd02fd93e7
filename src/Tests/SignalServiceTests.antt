-- ===== src/Tests/SignalServiceTests.antt =====
-- The signal service on a row whose zone holds the close, and its entry at the services that read it.
use vix_75_platform.Base.{◌≡◌, refl, String, true, false, none, some, [], ◌∷◌, if◌then◌else◌}
use vix_75_platform.Base.Dict.{Dict, text_eq}
use vix_75_platform.Base.Int.{ℤ, pos}
use vix_75_platform.Base.Result.{ok, raise, type_error, attribute_error}
use vix_75_platform.Correlation.{get_or_create_correlation_id}
use vix_75_platform.Json.{JsonLib, num, text}
use vix_75_platform.Schemas.{Zone, demand, fresh, Signal, buy}
use vix_75_platform.Schemas.Uuid.{uuid_from_hex}
use vix_75_platform.Scoring.{calculate_score, score_of}
use vix_75_platform.RiskService.Handler.{RiskEnv, read_signal}
use vix_75_platform.NotifyService.Consumer.{NotifyConsumer, Outside, str}
use vix_75_platform.NotifyService.Consumer
use vix_75_platform.SignalService.Engine.{
  SignalEngine, evaluate, judge, conclude, build_signal, resolve_regime, htf_trend_from_emas,
}
use vix_75_platform.SignalService.Features.{
  FeatureRow, fetch_feature, fetch_ltf_row, fetch_htf_trend, decide_trend, insert_signal,
}
use vix_75_platform.SignalService.Consumer.{
  SignalEnv, SignalSettings, SignalConsumer, signal_entry, market_context, handle,
}
use vix_75_platform.SignalService.Consumer.Publishes.{Publishes, handle-Publishes}
use vix_75_platform.SignalService.Consumer.Handover.{read_signal-signal_entry, handle-signal_entry}
use vix_75_platform.Tests.Decimal.{decimal, decimal-IsOrdered}
use vix_75_platform.Tests.Store.{Keyspace, empty, update, keyspace_redis, keyspace_laws}

-- The documents under the two keys.
instance abbrev documents : JsonLib ℤ
documents = record {
  dumps = λ _. "";
  loads = λ s.
      if text_eq s "regime"
      then ok (("regime", text "S1_trend_up") ∷ [])
      else ok (("p_up", num (pos 60)) ∷ ("p_down", num (pos 30)) ∷ []);
  parse_float = λ _. raise type_error;
  parse_int = λ _. raise type_error;
  trunc = λ x. x;
}

abbrev env : SignalEnv ℤ
env = record {
  fresh_id = "c";
  signal_id = "0123456789abcdef0123456789abcdef";
  repr = λ s. s;
  dump_signal = λ _. "document";
}

abbrev settings : SignalSettings
settings = record { ltf_timeframes = "M5" ∷ []; htf_timeframes = "H4" ∷ "D1" ∷ [] }

abbrev zone : Zone ℤ
zone = record {
  id = "z";
  kind = demand;
  top = pos 50000;
  bottom = pos 48000;
  created_ts = 0;
  state = fresh;
  touches = 0;
  score = 1;
}

abbrev row : String → FeatureRow ℤ
row timeframe = record {
  symbol = "V75";
  timeframe = timeframe;
  ts = 0;
  close = some (pos 49000);
  atr = some (pos 1000);
  rsi = some (pos 5000);
  ema50 = some (pos 48500);
  ema200 = some (pos 48000);
  zones = ok (zone ∷ []);
}

abbrev keyspace : Keyspace
keyspace = record empty {
  texts =
      update "regime:current" (some "regime")
        (update "meta_label:current" (some "meta") (λ _. none));
}

abbrev engine : SignalEngine ℤ
engine = record {
  min_confluence = pos 450;
  min_p_win = pos 55;
  allow_s0_fade = false;
  sl_atr_buffer = pos 50;
  rr_tp_1 = pos 200;
  rr_tp_2 = pos 300;
}

abbrev start : SignalConsumer ℤ Keyspace
start = record {
  redis = keyspace;
  db = record { features = row "M5" ∷ row "H4" ∷ []; signals = [] };
  engine = engine;
  processed = 0;
  signals_fired = 0;
}

abbrev fields : Dict String
fields = ("symbol", "V75") ∷ ("timeframe", "M5") ∷ ("correlation_id", "m") ∷ []

one_signal : (handle env settings fields start).0.signals_fired ≡ 1
unfolding handle market_context fetch_ltf_row fetch_htf_trend fetch_feature decide_trend
    insert_signal evaluate judge conclude build_signal resolve_regime calculate_score score_of
    uuid_from_hex text_eq htf_trend_from_emas
one_signal = refl

handle-Publishes_example :
    Publishes env settings "m" "V75" "M5" start (handle env settings fields start).0
unfolding get_or_create_correlation_id text_eq
handle-Publishes_example =
    handle-Publishes keyspace_laws decimal-IsOrdered env settings fields start

abbrev signal : Signal ℤ
signal =
    build_signal engine env.signal_id
      (record {
        symbol = "V75";
        timeframe = "M5";
        ts = 0;
        close = pos 49000;
        atr = pos 1000;
        rsi = pos 5000;
        ema50 = pos 48500;
        ema200 = pos 48000;
        zones = zone ∷ [];
      })
      buy demand 6
      (record {
        htf_trend_aligned = true;
        zone_touch = true;
        bbma_confirm = true;
        rsi_divergence = false;
        regime_ok = true;
        meta_label_ok = true;
      })

abbrev risk : RiskEnv ℤ
risk = record { parse_signal = λ _. ok (some signal); fresh_id = "r"; now_iso = "t" }

read_signal-signal_entry_example :
    (read_signal risk (signal_entry env "m" signal) ≡ ok (some signal))
    × (get_or_create_correlation_id "f" (signal_entry env "m" signal) ≡ "m")
unfolding text_eq
read_signal-signal_entry_example = read_signal-signal_entry env "m" signal risk "f" refl refl

abbrev notify : NotifyConsumer ℤ
notify = record {
  alert_rejections = false;
  lifecycle = record { audit_log = []; recorded = 0 };
  sender = record { token = "t"; chat_id = "75"; sent = 0; failed = 0 };
  processed = 0;
  alerts_sent = 0;
}

abbrev outside : Outside
outside = record { fresh_id = "c"; audited = true; delivered = true }

handle-signal_entry_example :
    Consumer.handle outside
      (record {
        stream = "signal.generated";
        message_id = str "1-0";
        fields = signal_entry env "m" signal;
      })
      notify
    ≡ raise attribute_error
handle-signal_entry_example = handle-signal_entry env "m" signal outside "1-0" notify
