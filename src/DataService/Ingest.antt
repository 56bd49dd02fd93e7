-- ===== src/DataService/Ingest.antt =====
-- services/data-service/app/ingest.py, with the `ohlcv` table of db.py. Instants stand for their ISO
-- texts, which sort the same way for whole seconds of UTC.
pub mod Loss
use vix_75_platform.Base.{
  ℕ, ◌+◌, String, Bool, true, false, ◌&&◌, Option, none, some, List, [], ◌∷◌, ◌++◌, ◌==◌, ltb, any,
  filter, length, if◌then◌else◌,
}
use vix_75_platform.Base.Dict.{Dict, lookup, insert, text_eq}
use vix_75_platform.Base.Result.{Result, Exception, ok, raise}
use vix_75_platform.Correlation.{stream_fields}
use vix_75_platform.Float.{Float}
use vix_75_platform.Redis.{Redis}
use vix_75_platform.Schemas.{Bar, Timestamp}

abbrev pub ohlcv_stream : String
ohlcv_stream = "ohlcv.update"

-- A row of the table, by its unique key and its bar.
pub record Row (F : Type 0) : Type 0 where
  pub symbol : String
  pub timeframe : String
  pub bar : Bar F

pub record IngestStats : Type 0 where
  pub cycles : ℕ
  pub bars_written : ℕ
  pub events_published : ℕ
  pub last_bar_ts : Option Timestamp
  pub errors : ℕ

pub record Ingestor (F R : Type 0) : Type 0 where
  pub rows : List (Row F)
  pub redis : R
  pub last_seen : Dict Timestamp
  pub stats : IngestStats

-- One polling pass as the outside answers it: the connection, the bars of a timeframe, the exception of its write and
-- that of its publication, if there is one, a fresh id for an entry, and `isoformat()`.
pub record Pass (F : Type 0) : Type 0 where
  pub connect : Result (Unit {0})
  pub copy_bars : String → Result (List (Bar F))
  pub write_error : String → Option Exception
  pub publish_error : String → Option Exception
  pub fresh_id : Timestamp → String
  pub isoformat : Timestamp → String

module _ {F : Type 0} where
  -- `bars[-1].ts`
  abbrev pub last_ts : Bar F → List (Bar F) → Timestamp
  last_ts bar [] = bar.ts
  last_ts _ (bar ∷ bars) = last_ts bar bars

  abbrev pub newer : Option Timestamp → List (Bar F) → List (Bar F)
  newer none bars = bars
  newer (some previous) bars = filter (λ b. ltb previous b.ts) bars

  -- The bars to forward, and `_last_seen`.
  unfoldable pub filter_new : String → List (Bar F) → Dict Timestamp → List (Bar F) × Dict Timestamp
  filter_new timeframe [] seen = ([], seen)
  filter_new timeframe (bar ∷ bars) seen =
      (newer (lookup timeframe seen) (bar ∷ bars), insert timeframe (last_ts bar bars) seen)

  abbrev pub has_key : String → String → Timestamp → List (Row F) → Bool
  has_key symbol timeframe ts rows =
      any (λ r. text_eq r.symbol symbol && (text_eq r.timeframe timeframe && r.bar.ts == ts)) rows

  -- `ON CONFLICT (symbol, timeframe, ts) DO NOTHING`, bar by bar.
  abbrev pub upsert_bars : String → String → List (Bar F) → List (Row F) → List (Row F)
  upsert_bars symbol timeframe [] rows = rows
  upsert_bars symbol timeframe (bar ∷ bars) rows = upsert_bars symbol timeframe bars (
      if has_key symbol timeframe bar.ts rows
      then rows
      else rows ++ (record { symbol = symbol; timeframe = timeframe; bar = bar } ∷ []))

module _ {F : Type 0} ⦃d : Float F⦄ (pass : Pass F) where
  abbrev pub bar_entry : String → String → Bar F → Dict String
  bar_entry symbol timeframe bar =
      stream_fields (pass.fresh_id bar.ts)
        (("symbol", symbol)
          ∷ ("timeframe", timeframe)
          ∷ ("ts", pass.isoformat bar.ts)
          ∷ ("close", d.show bar.close)
          ∷ [])
        none

module _ {F R : Type 0} ⦃d : Float F⦄ ⦃c : Redis R⦄ (pass : Pass F) where
  abbrev pub publish : String → String → List (Bar F) → R → R
  publish symbol timeframe [] r = r
  publish symbol timeframe (bar ∷ bars) r =
      publish symbol timeframe bars (c.xadd ohlcv_stream (bar_entry pass symbol timeframe bar) r)

  -- What follows the filter: nothing, or the write and then the publication.
  abbrev pub forward :
      String → String → List (Bar F) → Ingestor F R → Ingestor F R × Result (Unit {0})
  forward symbol timeframe [] s = (s, ok tt)
  forward symbol timeframe (bar ∷ bars) s = elim (pass.write_error timeframe) [
    | some e ↦ (s, raise e)
    | none ↦
        let written = record s {
          rows = upsert_bars symbol timeframe (bar ∷ bars) s.rows;
          stats = record s.stats { bars_written = s.stats.bars_written + length (bar ∷ bars) };
        } in
        elim (pass.publish_error timeframe) [
          | some e ↦ (written, raise e)
          | none ↦ (
            record written {
              redis = publish symbol timeframe (bar ∷ bars) s.redis;
              stats = record written.stats {
                events_published = s.stats.events_published + length (bar ∷ bars);
                last_bar_ts = some (last_ts bar bars);
              };
            },
            ok tt,
          )
        ]
  ]

  unfoldable pub poll : String → String → Ingestor F R → Ingestor F R × Result (Unit {0})
  poll symbol timeframe s = elim (pass.copy_bars timeframe) [
    | raise e ↦ (s, raise e)
    | ok bars ↦
        let (fresh, seen) = filter_new timeframe bars s.last_seen in
        forward symbol timeframe fresh (record s { last_seen = seen })
  ]

  -- The loop of `cycle` over the timeframes, up to the first exception.
  unfoldable pub poll_all : String → List String → Ingestor F R → Ingestor F R × Result (Unit {0})
  poll_all symbol [] s =
      (record s { stats = record s.stats { cycles = s.stats.cycles + 1 } }, ok tt)
  poll_all symbol (timeframe ∷ timeframes) s =
      let polled = poll symbol timeframe s in
      let rest = poll_all symbol timeframes polled.0 in
      elim polled.1 [ raise e ↦ (polled.0, raise e) | ok _ ↦ rest ]

  unfoldable pub cycle : String → List String → Ingestor F R → Ingestor F R × Result (Unit {0})
  cycle symbol timeframes s = elim pass.connect [
    | raise e ↦ (s, raise e)
    | ok _ ↦ poll_all symbol timeframes s
  ]

  abbrev pub counted : Ingestor F R × Result (Unit {0}) → Ingestor F R
  counted (s, ok _) = s
  counted (s, raise _) = record s { stats = record s.stats { errors = s.stats.errors + 1 } }

  -- One round of `run_forever`, which counts an exception and goes on.
  unfoldable pub round : String → List String → Ingestor F R → Ingestor F R
  round symbol timeframes s = counted (cycle symbol timeframes s)
