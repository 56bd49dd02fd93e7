-- ===== src/DataService/Ingest/Loss.antt =====
-- Which bars services/data-service/app/ingest.py stores, and which it loses.
use vix_75_platform.Base.{
  ◌≤◌, ◌≡◌, ◌≢◌, refl, ap, sym, subst, ◌∙◌, Bool-cases, Option-cases, inl, inr, String, true, none,
  some, List, [], ◌∷◌, ◌++◌, ltb, filter, All, arith, if◌then◌else◌,
}
use vix_75_platform.Base.Dict.{Dict, lookup, lookup-insert_self, text_eq_refl}
use vix_75_platform.Base.Result.{Exception, ok, raise}
use vix_75_platform.Float.{Float}
use vix_75_platform.Redis.{Redis}
use vix_75_platform.Schemas.{Bar, Timestamp}
use vix_75_platform.DataService.Ingest.{
  Row, Ingestor, Pass, last_ts, newer, filter_new, has_key, upsert_bars, forward, poll,
}

module _ {F : Type 0} where
  -- The bars end with the newest one.
  abbrev pub EndsAt : Timestamp → List (Bar F) → Type 0
  EndsAt t bars = All (λ b. b.ts ≤ t) bars

  filter-EndsAt :
      (t : Timestamp) (bars : List (Bar F)) → EndsAt t bars → filter (λ b. ltb t b.ts) bars ≡ []
  filter-EndsAt t [] h = refl
  filter-EndsAt t (b ∷ bars) h = ground (arith, filter-EndsAt t bars)

  has_key-append :
      (symbol timeframe : String) (ts : Timestamp) (rows more : List (Row F))
      → has_key symbol timeframe ts rows ≡ true
      → has_key symbol timeframe ts (rows ++ more) ≡ true
  has_key-append symbol timeframe ts [] more h = ground arith
  has_key-append symbol timeframe ts (r ∷ rows) more h =
      ground (arith, has_key-append symbol timeframe ts rows more)

  has_key-new :
      (symbol timeframe : String) (bar : Bar F) (rows : List (Row F))
      → has_key symbol timeframe bar.ts
          (rows ++ (record { symbol = symbol; timeframe = timeframe; bar = bar } ∷ []))
        ≡ true
  has_key-new symbol timeframe bar [] = ground (arith, text_eq_refl symbol, text_eq_refl timeframe)
  has_key-new symbol timeframe bar (r ∷ rows) =
      ground (arith, has_key-new symbol timeframe bar rows)

  -- The rows after one bar.
  abbrev upsert_bar : String → String → Bar F → List (Row F) → List (Row F)
  upsert_bar symbol timeframe bar rows =
      if has_key symbol timeframe bar.ts rows
      then rows
      else rows ++ (record { symbol = symbol; timeframe = timeframe; bar = bar } ∷ [])

  upsert_bar-keeps :
      (symbol timeframe : String) (ts : Timestamp) (b : Bar F) (rows : List (Row F))
      → has_key symbol timeframe ts rows ≡ true
      → has_key symbol timeframe ts (upsert_bar symbol timeframe b rows) ≡ true
  upsert_bar-keeps symbol timeframe ts b rows h =
      elim (Bool-cases (has_key symbol timeframe b.ts rows)) [
        | inl e ↦ rw e h
        | inr e ↦ rw e (has_key-append symbol timeframe ts rows _ h)
      ]

  has_key-upsert_bar :
      (symbol timeframe : String) (b : Bar F) (rows : List (Row F))
      → has_key symbol timeframe b.ts (upsert_bar symbol timeframe b rows) ≡ true
  has_key-upsert_bar symbol timeframe b rows =
      elim (Bool-cases (has_key symbol timeframe b.ts rows)) [
        | inl e ↦ rw e (ground arith)
        | inr e ↦ rw e (has_key-new symbol timeframe b rows)
      ]

  pub upsert_bars-keeps :
      (symbol timeframe : String) (ts : Timestamp) (bars : List (Bar F)) (rows : List (Row F))
      → has_key symbol timeframe ts rows ≡ true
      → has_key symbol timeframe ts (upsert_bars symbol timeframe bars rows) ≡ true
  upsert_bars-keeps symbol timeframe ts [] rows h = h
  upsert_bars-keeps symbol timeframe ts (b ∷ bars) rows h =
      upsert_bars-keeps symbol timeframe ts bars (upsert_bar symbol timeframe b rows)
        (upsert_bar-keeps symbol timeframe ts b rows h)

  abbrev pub AreStored : String → String → List (Row F) → List (Bar F) → Type 0
  AreStored symbol timeframe rows bars = All (λ b. has_key symbol timeframe b.ts rows ≡ true) bars

  pub upsert_bars-AreStored :
      (symbol timeframe : String) (bars : List (Bar F)) (rows : List (Row F))
      → AreStored symbol timeframe (upsert_bars symbol timeframe bars rows) bars
  upsert_bars-AreStored symbol timeframe [] rows = tt
  upsert_bars-AreStored symbol timeframe (b ∷ bars) rows = (
    upsert_bars-keeps symbol timeframe b.ts bars (upsert_bar symbol timeframe b rows)
        (has_key-upsert_bar symbol timeframe b rows),
    upsert_bars-AreStored symbol timeframe bars (upsert_bar symbol timeframe b rows),
  )

  filter_new-fresh :
      (timeframe : String) (bars : List (Bar F)) (seen : Dict Timestamp)
      → (filter_new timeframe bars seen).0 ≡ newer (lookup timeframe seen) bars
  unfolding filter_new
  filter_new-fresh timeframe [] seen = ground arith
  filter_new-fresh timeframe (b ∷ bars) seen = refl

  -- A window that was passed to the filter has nothing new for it.
  filter_new-twice :
      (timeframe : String) (b : Bar F) (bars : List (Bar F)) (seen : Dict Timestamp)
      → EndsAt (last_ts b bars) (b ∷ bars)
      → (filter_new timeframe (b ∷ bars) (filter_new timeframe (b ∷ bars) seen).1).0 ≡ []
  unfolding filter_new
  filter_new-twice timeframe b bars seen h =
      rw (lookup-insert_self timeframe (last_ts b bars) seen) (filter-EndsAt _ (b ∷ bars) h)

module _ {F R : Type 0} ⦃d : Float F⦄ ⦃c : Redis R⦄ (symbol timeframe : String) where
  forward_rows :
      (pass : Pass F) (b : Bar F) (bars : List (Bar F)) (s : Ingestor F R)
      → pass.write_error timeframe ≡ none
      → pass.publish_error timeframe ≡ none
      → (forward pass symbol timeframe (b ∷ bars) s).0.rows
        ≡ upsert_bars symbol timeframe (b ∷ bars) s.rows
  forward_rows pass b bars s e e' = rw (e, e', forward) refl

  forward-AreStored :
      (pass : Pass F) (bars : List (Bar F)) (s : Ingestor F R)
      → (forward pass symbol timeframe bars s).1 ≡ ok tt
      → AreStored symbol timeframe (forward pass symbol timeframe bars s).0.rows bars
  forward-AreStored pass [] s h = tt
  forward-AreStored pass (b ∷ bars) s h = elim (Option-cases (pass.write_error timeframe)) [
    | inr (e, eq) ↦ let k = rw (eq, forward) at h in ground arith
    | inl eq ↦ elim (Option-cases (pass.publish_error timeframe)) [
      | inr (e, eq') ↦ let k = rw (eq, eq', forward) at h in ground arith
      | inl eq' ↦
          subst (λ rows. AreStored symbol timeframe rows (b ∷ bars))
            (sym (forward_rows pass b bars s eq eq'))
            (upsert_bars-AreStored symbol timeframe (b ∷ bars) s.rows)
    ]
  ]

  forward_fails :
      (pass : Pass F) (bars : List (Bar F)) (e : Exception) (s : Ingestor F R)
      → bars ≢ []
      → pass.write_error timeframe ≡ some e
      → forward pass symbol timeframe bars s ≡ (s, raise e)
  forward_fails pass [] e s n h = ground arith
  forward_fails pass (b ∷ bars) e s n h = rw (h, forward) refl

  poll-ok :
      (pass : Pass F) (bars : List (Bar F)) (s : Ingestor F R)
      → pass.copy_bars timeframe ≡ ok bars
      → poll pass symbol timeframe s
        ≡ forward pass symbol timeframe
            (filter_new timeframe bars s.last_seen).0
            (record s { last_seen = (filter_new timeframe bars s.last_seen).1 })
  unfolding poll
  poll-ok pass bars s h = rw (h, poll) refl

  -- If a poll of a timeframe whose bars are read returns normally, every bar of the window that is
  -- newer than the last one seen, or every bar where none was seen, has a row in the table.
  pub poll-AreStored :
      (pass : Pass F) (bars : List (Bar F)) (s : Ingestor F R)
      → pass.copy_bars timeframe ≡ ok bars
      → (poll pass symbol timeframe s).1 ≡ ok tt
      → AreStored symbol timeframe
          (poll pass symbol timeframe s).0.rows
          (newer (lookup timeframe s.last_seen) bars)
  poll-AreStored pass bars s hc h =
      let e = poll-ok pass bars s hc in
      let filtered = filter_new timeframe bars s.last_seen in
      let stored =
        forward-AreStored pass filtered.0 (record s { last_seen = filtered.1 })
          (ap (λ x. x.1) (sym e) ∙ h) in
      let stored' = subst (λ x. AreStored symbol timeframe x.0.rows filtered.0) (sym e) stored in
      subst (AreStored symbol timeframe (poll pass symbol timeframe s).0.rows)
        (filter_new-fresh timeframe bars s.last_seen) stored'

  -- If the write of a window's new bars raises and the window's last bar is its newest, the poll
  -- raises the same exception; and if the next poll sees the same window, it returns normally and
  -- leaves the rows and Redis as they were before the first poll.
  pub poll_loses :
      (pass later : Pass F) (b : Bar F) (bars : List (Bar F)) (e : Exception) (s : Ingestor F R)
      → pass.copy_bars timeframe ≡ ok (b ∷ bars)
      → EndsAt (last_ts b bars) (b ∷ bars)
      → newer (lookup timeframe s.last_seen) (b ∷ bars) ≢ []
      → pass.write_error timeframe ≡ some e
      → later.copy_bars timeframe ≡ ok (b ∷ bars)
      → let failed = poll pass symbol timeframe s in
        let next = poll later symbol timeframe failed.0 in
        (failed.1 ≡ raise e) × (next.1 ≡ ok tt) × (next.0.rows ≡ s.rows) × (next.0.redis ≡ s.redis)
  poll_loses pass later b bars e s hc hn hf hw hl =
      let seen = (filter_new timeframe (b ∷ bars) s.last_seen).1 in
      let s1 : Ingestor F R = record s { last_seen = seen } in
      let fresh = filter_new-fresh timeframe (b ∷ bars) s.last_seen in
      let first : poll pass symbol timeframe s ≡ (s1, raise e) =
        poll-ok pass (b ∷ bars) s hc
        ∙ forward_fails pass (filter_new timeframe (b ∷ bars) s.last_seen).0 e s1
            (λ n. hf (sym fresh ∙ n)) hw in
      let nothing = filter_new-twice timeframe b bars s.last_seen hn in
      let second : poll later symbol timeframe s1
          ≡ (record s1 { last_seen = (filter_new timeframe (b ∷ bars) seen).1 }, ok tt) =
        poll-ok later (b ∷ bars) s1 hl
        ∙ ap
            (λ x.
              forward later symbol timeframe x
                (record s1 { last_seen = (filter_new timeframe (b ∷ bars) seen).1 }))
            nothing in
      rw (first, second) (refl, refl, refl, refl)
