-- ===== src/Tests/IngestTests.antt =====
-- The ingest loop on a window of two bars, with the database up and down.
use vix_75_platform.Base.{ℕ, ◌≡◌, refl, Option, none, some, List, [], ◌∷◌, arith}
use vix_75_platform.Base.Dict.{text_eq}
use vix_75_platform.Base.Int.{ℤ, pos}
use vix_75_platform.Base.Result.{Exception, ok, raise, runtime_error}
use vix_75_platform.Schemas.{Bar}
use vix_75_platform.DataService.Ingest.{Pass, Ingestor, poll, poll_all, cycle, round, filter_new}
use vix_75_platform.DataService.Ingest.Loss.{AreStored, poll-AreStored, poll_loses}
use vix_75_platform.Tests.Decimal.{decimal}
use vix_75_platform.Tests.Store.{Keyspace, empty, keyspace_redis}

abbrev bar : ℕ → Bar ℤ
bar ts = record {
  ts = ts;
  open_price = pos 100;
  high = pos 100;
  low = pos 100;
  close = pos 100;
  tick_volume = 1;
}

abbrev window : List (Bar ℤ)
window = bar 300 ∷ bar 600 ∷ []

abbrev pass : Option Exception → Pass ℤ
pass down = record {
  connect = ok tt;
  copy_bars = λ _. ok window;
  write_error = λ _. down;
  publish_error = λ _. none;
  fresh_id = λ _. "c";
  isoformat = λ _. "t";
}

abbrev ingestor : Ingestor ℤ Keyspace
ingestor = record {
  rows = [];
  redis = empty;
  last_seen = [];
  stats = record {
    cycles = 0;
    bars_written = 0;
    events_published = 0;
    last_bar_ts = none;
    errors = 0;
  };
}

abbrev down : Exception
down = runtime_error "connection lost"

-- A failed round, and one more on the same window: nothing is written.
lost :
    (round
      (pass none)
      "V75"
      ("M5" ∷ [])
      (round (pass (some down)) "V75" ("M5" ∷ []) ingestor)).stats
    ≡ record { cycles = 1; bars_written = 0; events_published = 0; last_bar_ts = none; errors = 1 }
unfolding round cycle poll_all poll filter_new text_eq
lost = refl

polled : (poll (pass none) "V75" "M5" ingestor).1 ≡ ok tt
unfolding poll filter_new text_eq
polled = refl

poll-AreStored_example : AreStored "V75" "M5" (poll (pass none) "V75" "M5" ingestor).0.rows window
poll-AreStored_example = poll-AreStored "V75" "M5" (pass none) window ingestor refl polled

poll_loses_example :
    let failed = poll (pass (some down)) "V75" "M5" ingestor in
    let next = poll (pass none) "V75" "M5" failed.0 in
    (failed.1 ≡ raise down) × (next.1 ≡ ok tt) × (next.0.rows ≡ []) × (next.0.redis ≡ empty)
poll_loses_example =
    poll_loses "V75" "M5" (pass (some down)) (pass none) (bar 300) (bar 600 ∷ []) down ingestor refl
      (omega arith, (omega arith, tt)) (λ e. cc) refl refl
