-- ===== src/DataService/Backfill/Stored.antt =====
-- That a backfill of services/data-service/app/backfill.py ends, and what it leaves in the table.
use vix_75_platform.Base.{
  ℕ, zero, suc, ◌+◌, ◌≤◌, ◌≡◌, ◌≢◌, refl, sym, subst, String, Bool, true, false, some, List, [],
  ◌∷◌, arith, All, length, if◌then◌else◌, Option-cases, inl, inr,
}
use vix_75_platform.Base.Result.{Result, ok, ◌>>=◌, bind-eq-ok}
use vix_75_platform.Schemas.{Bar, Timestamp}
use vix_75_platform.Mt5.{Rate}
use vix_75_platform.Mt5.Reading.{timeframe_map}
use vix_75_platform.DataService.Ingest.{Row, has_key, upsert_bars}
use vix_75_platform.DataService.Ingest.Loss.{AreStored, upsert_bars-keeps, upsert_bars-AreStored}
use vix_75_platform.DataService.Backfill.{
  History, BackfillState, rows_to_bars, is_last, history_chunks, iter_history_chunks, store_chunks,
  record_backfill, backfill_timeframe,
}

module _ {F : Type 0} (h : History F) (symbol : String) where
  -- The terminal has no rows from a position on.
  abbrev pub EndsBy : (tf chunk_size total : ℕ) → Type 0
  EndsBy tf chunk_size total =
      (start : ℕ)
      → total ≤ start
      → (oldest : Rate F) (rates : List (Rate F))
      → h.copy_rates_from_pos symbol tf start chunk_size ≢ some (oldest ∷ rates)

  module _ (tf lookback_days chunk_size total : ℕ) (ends : EndsBy tf chunk_size total) where
    if-ok :
        (b : Bool) (page : List (Rate F)) (rest : Result (List (List (Rate F))))
        → (chunks : List (List (Rate F))) × (rest ≡ ok chunks)
        → (chunks : List (List (Rate F))) × ((if b
              then ok (page ∷ [])
              else rest >>= λ cs. ok (page ∷ cs))
            ≡ ok chunks)
    if-ok true page rest (chunks, e) = (page ∷ [], refl)
    if-ok false page rest (chunks, e) = (page ∷ chunks, rw e refl)

    history_chunks-ok :
        (n start : ℕ)
        → total ≤ start + n
        → (chunks : List (List (Rate F))) × (history_chunks
              (suc n)
              h
              symbol
              tf
              lookback_days
              chunk_size
              start
            ≡ ok chunks)
    unfolding history_chunks
    history_chunks-ok zero start k =
        elim (Option-cases (h.copy_rates_from_pos symbol tf start chunk_size)) [
          | inl e ↦ ([], rw (e, history_chunks) refl)
          | inr ([], e) ↦ ([], rw (e, history_chunks) refl)
          | inr (oldest ∷ rates, e) ↦ absurd (ends start (omega (arith, k)) oldest rates e)
        ]
    history_chunks-ok (suc n) start k =
        elim (Option-cases (h.copy_rates_from_pos symbol tf start chunk_size)) [
          | inl e ↦ ([], rw (e, history_chunks) refl)
          | inr ([], e) ↦ ([], rw (e, history_chunks) refl)
          | inr (oldest ∷ rates, e) ↦
              let further = history_chunks-ok n (start + suc (length rates)) (omega (arith, k)) in
              let (chunks, eq) =
                if-ok (is_last h.now lookback_days chunk_size oldest rates) (oldest ∷ rates) _
                  further in
              (chunks, rw (e, history_chunks) eq)
        ]

module _ {F : Type 0} (symbol timeframe : String) where
  store_chunks-keeps :
      (ts : Timestamp) (chunks : List (List (Rate F))) (total : ℕ) (rows : List (Row F))
      → has_key symbol timeframe ts rows ≡ true
      → has_key symbol timeframe ts (store_chunks symbol timeframe chunks total rows).1 ≡ true
  store_chunks-keeps ts [] total rows h = h
  store_chunks-keeps ts (chunk ∷ chunks) total rows h =
      store_chunks-keeps ts chunks _ _
        (upsert_bars-keeps symbol timeframe ts (rows_to_bars chunk) rows h)

  store_chunks-AreStored :
      (bars : List (Bar F)) (chunks : List (List (Rate F))) (total : ℕ) (rows : List (Row F))
      → AreStored symbol timeframe rows bars
      → AreStored symbol timeframe (store_chunks symbol timeframe chunks total rows).1 bars
  store_chunks-AreStored [] chunks total rows h = tt
  store_chunks-AreStored (b ∷ bars) chunks total rows (h, k) =
      (store_chunks-keeps b.ts chunks total rows h, store_chunks-AreStored bars chunks total rows k)

  -- Every bar of every chunk has a row.
  abbrev pub AllStored : List (Row F) → List (List (Rate F)) → Type 0
  AllStored rows chunks = All (λ c. AreStored symbol timeframe rows (rows_to_bars c)) chunks

  store_chunks-AllStored :
      (chunks : List (List (Rate F))) (total : ℕ) (rows : List (Row F))
      → AllStored (store_chunks symbol timeframe chunks total rows).1 chunks
  store_chunks-AllStored [] total rows = tt
  store_chunks-AllStored (chunk ∷ chunks) total rows = (
    store_chunks-AreStored (rows_to_bars chunk) chunks _ _
        (upsert_bars-AreStored symbol timeframe (rows_to_bars chunk) rows),
    store_chunks-AllStored chunks _ _,
  )

  -- A row that is there already is not changed.
  upsert_bars-same :
      (bar : Bar F) (rows : List (Row F))
      → has_key symbol timeframe bar.ts rows ≡ true
      → upsert_bars symbol timeframe (bar ∷ []) rows ≡ rows
  upsert_bars-same bar rows h = rw h refl

-- The time of the newest row of a page, at position 0 the bar that still forms.
abbrev pub newest_time : {F : Type 0} → Rate F → List (Rate F) → Timestamp
newest_time row [] = row.time
newest_time _ (row ∷ rates) = newest_time row rates

ok_inj {ℓ} : {A : Type ℓ} {a b : A} → ok a ≡ ok b → a ≡ b
ok_inj h = cc

module _ {F : Type 0} where
  AreStored-newest :
      (symbol timeframe : String) (rows : List (Row F)) (oldest : Rate F) (rates : List (Rate F))
      → AreStored symbol timeframe rows (rows_to_bars (oldest ∷ rates))
      → has_key symbol timeframe (newest_time oldest rates) rows ≡ true
  AreStored-newest symbol timeframe rows oldest [] (h, _) = h
  AreStored-newest symbol timeframe rows oldest (row ∷ rates) (_, k) =
      AreStored-newest symbol timeframe rows row rates k

  first_page :
      (b : Bool) (page : List (Rate F)) (rest : Result (List (List (Rate F))))
      (chunks : List (List (Rate F)))
      → (if b then ok (page ∷ []) else rest >>= λ cs. ok (page ∷ cs)) ≡ ok chunks
      → (more : List (List (Rate F))) × (page ∷ more ≡ chunks)
  first_page true page rest chunks e = ([], ok_inj e)
  first_page false page rest chunks e = let (more, _, k) = bind-eq-ok rest _ e in (more, ok_inj k)

module _ {F : Type 0} (h : History F) (symbol timeframe : String)
    (tf lookback_days chunk_size : ℕ) where
  -- If the timeframe is known and the terminal has no rows from a position on that the fuel
  -- covers, a backfill returns, and every bar of every page that the generator yields has a row in
  -- the table.
  pub backfill_timeframe-AllStored :
      (total fuel : ℕ) (s : BackfillState F)
      → timeframe_map timeframe ≡ some tf
      → EndsBy h symbol tf chunk_size total
      → total ≤ fuel
      → (chunks : List (List (Rate F))) × (n : ℕ) × (s' : BackfillState F) × (iter_history_chunks
            (suc fuel)
            h
            symbol
            timeframe
            lookback_days
            chunk_size
          ≡ ok chunks)
        × (backfill_timeframe (suc fuel) h symbol timeframe lookback_days chunk_size s ≡ ok (n, s'))
        × AllStored symbol timeframe s'.rows chunks
  unfolding iter_history_chunks backfill_timeframe
  backfill_timeframe-AllStored total fuel s ht ends k =
      let (chunks, e) =
        history_chunks-ok h symbol tf lookback_days chunk_size total ends fuel 0
          (omega (arith, k)) in
      let done = record_backfill symbol timeframe chunks s in
      (
        chunks,
        done.0,
        done.1,
        rw (ht, iter_history_chunks) e,
        rw (ht, iter_history_chunks, e, backfill_timeframe) refl,
        store_chunks-AllStored symbol timeframe chunks 0 s.rows,
      )

  -- If the timeframe is known, the terminal has no rows from a position on that the fuel covers,
  -- and the first page is not empty, a backfill returns, and a later bar with the time of that
  -- page's newest row does not change the table.
  pub backfill_timeframe-keeps :
      (total fuel : ℕ) (s : BackfillState F) (oldest : Rate F) (rates : List (Rate F))
      (closed : Bar F)
      → timeframe_map timeframe ≡ some tf
      → EndsBy h symbol tf chunk_size total
      → total ≤ fuel
      → h.copy_rates_from_pos symbol tf 0 chunk_size ≡ some (oldest ∷ rates)
      → closed.ts ≡ newest_time oldest rates
      → (n : ℕ) × (s' : BackfillState F) × (backfill_timeframe
            (suc fuel)
            h
            symbol
            timeframe
            lookback_days
            chunk_size
            s
          ≡ ok (n, s'))
        × (upsert_bars symbol timeframe (closed ∷ []) s'.rows ≡ s'.rows)
  unfolding iter_history_chunks history_chunks
  backfill_timeframe-keeps total fuel s oldest rates closed ht ends k hp hc =
      let (chunks, n, s', he, hb, stored) = backfill_timeframe-AllStored total fuel s ht ends k in
      let (more, e) =
        first_page (is_last h.now lookback_days chunk_size oldest rates) (oldest ∷ rates) _ chunks
          (rw (ht, iter_history_chunks, hp, history_chunks) at he) in
      let (first, _) : AllStored symbol timeframe s'.rows ((oldest ∷ rates) ∷ more) =
        subst (AllStored symbol timeframe s'.rows) (sym e) stored in
      let key = AreStored-newest symbol timeframe s'.rows oldest rates first in
      (n, s', hb, upsert_bars-same symbol timeframe closed s'.rows (rw hc key))
