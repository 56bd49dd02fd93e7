-- ===== src/DataService/Backfill.antt =====
-- services/data-service/app/backfill.py, with iter_history_chunks of mt5_client.py. The terminal is not
-- asked for other history meanwhile, so a position names the same rows throughout; instants are seconds.
pub mod Stored
use vix_75_platform.Base.{
  ℕ, zero, suc, ◌+◌, ◌*◌, ◌≤◌, ◌≡◌, String, Bool, true, false, ◌||◌, Option, none, some, List, [],
  ◌∷◌, leb, ltb, map, length, format, if◌then◌else◌,
}
use vix_75_platform.Base.Result.{Result, ok, raise, value_error, out_of_fuel, ◌>>=◌}
use vix_75_platform.Schemas.{Bar, Timestamp}
use vix_75_platform.Mt5.{Rate}
use vix_75_platform.Mt5.Reading.{timeframe_map, to_utc_bar}
use vix_75_platform.DataService.Ingest.{Row, upsert_bars}

-- `copy_rates_from_pos`, by the constant of the timeframe, start and count, and the clock in seconds.
pub record History (F : Type 0) : Type 0 where
  pub copy_rates_from_pos : String → ℕ → ℕ → ℕ → Option (List (Rate F))
  pub now : ℕ

-- The table, and the subjects and counts of the audit rows "backfill".
pub record BackfillState (F : Type 0) : Type 0 where
  pub rows : List (Row F)
  pub audited : List (String × ℕ)

module _ {F : Type 0} where
  abbrev pub rows_to_bars : List (Rate F) → List (Bar F)
  rows_to_bars rates = map to_utc_bar rates

  -- `oldest_ts <= cutoff or len(rates) < chunk_size`
  abbrev pub is_last : ℕ → ℕ → ℕ → Rate F → List (Rate F) → Bool
  is_last now lookback_days chunk_size oldest rates =
      leb (oldest.time + lookback_days * 86400) now || ltb (length (oldest ∷ rates)) chunk_size

  -- The pages that the generator yields from a position.
  pub history_chunks : ℕ → History F → String → ℕ → ℕ → ℕ → ℕ → Result (List (List (Rate F)))
  history_chunks zero h symbol tf lookback_days chunk_size start_pos = raise out_of_fuel
  history_chunks (suc fuel) h symbol tf lookback_days chunk_size start_pos =
      elim (h.copy_rates_from_pos symbol tf start_pos chunk_size) [
        | none ↦ ok []
        | some [] ↦ ok []
        | some (oldest ∷ rates) ↦
            let rest =
              history_chunks fuel h symbol tf lookback_days chunk_size
                (start_pos + length (oldest ∷ rates)) in
            if is_last h.now lookback_days chunk_size oldest rates
            then ok ((oldest ∷ rates) ∷ [])
            else rest >>= λ chunks. ok ((oldest ∷ rates) ∷ chunks)
      ]

  -- The timeframes that pass the guard are those of the map.
  pub iter_history_chunks : ℕ → History F → String → String → ℕ → ℕ → Result (List (List (Rate F)))
  iter_history_chunks fuel h symbol timeframe lookback_days chunk_size =
      elim (timeframe_map timeframe) [
        | none ↦
            raise (value_error (format ("unsupported backfill timeframe '" ∷ timeframe ∷ "'" ∷ [])))
        | some tf ↦ history_chunks fuel h symbol tf lookback_days chunk_size 0
      ]

  -- The loop over the chunks: the bars stored, which `upsert_bars` counts as attempted.
  abbrev pub store_chunks :
      String → String → List (List (Rate F)) → ℕ → List (Row F) → ℕ × List (Row F)
  store_chunks symbol timeframe [] total rows = (total, rows)
  store_chunks symbol timeframe (chunk ∷ chunks) total rows =
      store_chunks symbol timeframe chunks (total + length (rows_to_bars chunk))
        (upsert_bars symbol timeframe (rows_to_bars chunk) rows)

  abbrev pub record_backfill :
      String → String → List (List (Rate F)) → BackfillState F → ℕ × BackfillState F
  record_backfill symbol timeframe chunks s =
      let (total, rows) = store_chunks symbol timeframe chunks 0 s.rows in
      (
        total,
        record {
          rows = rows;
          audited = (format (symbol ∷ ":" ∷ timeframe ∷ []), total) ∷ s.audited;
        },
      )

  pub backfill_timeframe :
      ℕ → History F → String → String → ℕ → ℕ → BackfillState F → Result (ℕ × BackfillState F)
  backfill_timeframe fuel h symbol timeframe lookback_days chunk_size s =
      iter_history_chunks fuel h symbol timeframe lookback_days chunk_size >>= λ chunks.
      ok (record_backfill symbol timeframe chunks s)
