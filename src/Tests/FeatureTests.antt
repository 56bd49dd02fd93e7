-- ===== src/Tests/FeatureTests.antt =====
-- The feature service on an event that it computes, and on one that is malformed.
use vix_75_platform.Base.{
  ℕ, zero, suc, ◌≡◌, refl, String, true, none, some, List, [], ◌∷◌, inl, inr,
}
use vix_75_platform.Base.Dict.{Dict, text_eq}
use vix_75_platform.Base.Int.{ℤ, pos}
use vix_75_platform.Base.Result.{ok, raise, attribute_error}
use vix_75_platform.Schemas.{Bar}
use vix_75_platform.NotifyService.Consumer.{str}
use vix_75_platform.FeatureService.Compute.{Series, snapshot_from_bars}
use vix_75_platform.FeatureService.Consumer.{
  FeatureEnv, FeatureConsumer, Message, process_bar_event, delivery_count, handle,
}
use vix_75_platform.FeatureService.Consumer.Settled.{Settled, handle-Settled, handle_raises}
use vix_75_platform.Tests.Decimal.{decimal}
use vix_75_platform.Tests.Store.{Keyspace, empty, keyspace_redis, keyspace_laws}

abbrev bar : Bar ℤ
bar = record {
  ts = 0;
  open_price = pos 49000;
  high = pos 50000;
  low = pos 48000;
  close = pos 49500;
  tick_volume = 1;
}

abbrev repeat : ℕ → List (Bar ℤ)
repeat zero = []
repeat (suc n) = bar ∷ repeat n

abbrev series : Series ℤ
series = record {
  close = pos 49500;
  atr = pos 1000;
  atr_norm = pos 2;
  rsi = pos 5000;
  ema50 = pos 49000;
  ema200 = pos 48500;
  bb_upper = pos 50000;
  bb_mid = pos 49000;
  bb_lower = pos 48000;
  stoch_k = pos 5000;
  stoch_d = pos 5000;
  log_return = pos 0;
  realized_vol = pos 1;
}

abbrev env : FeatureEnv ℤ
env = record {
  fresh_id = "c";
  pending = none;
  fetch_bars = λ _ _. ok (repeat 250);
  build_frame = λ _. record { is_complete = true; last = series; swings = []; zones = [] };
  isoformat = λ _. "t";
}

abbrev start : FeatureConsumer ℤ Keyspace
start = record { redis = empty; features = []; acked = []; processed = 0 }

abbrev fields : Dict String
fields = ("symbol", "V75") ∷ ("timeframe", "M5") ∷ ("ts", "t") ∷ []

abbrev message : Message
message = record { message_id = str "1-0"; fields = fields }

one_processed : (handle env message start).0.processed ≡ 1
unfolding handle process_bar_event snapshot_from_bars text_eq
one_processed = refl

handle-Settled_example :
    Settled (str "1-0") start 1 (some "V75") (some "M5") (some "t") (handle env message start)
unfolding delivery_count text_eq
handle-Settled_example = handle-Settled keyspace_laws env "1-0" fields start

handle_raises_example :
    handle env (record { message_id = str "1-0"; fields = ("symbol", "V75") ∷ [] }) start
    ≡ (start, raise attribute_error)
unfolding text_eq
handle_raises_example = handle_raises env "1-0" (("symbol", "V75") ∷ []) start (inr (inl refl))
