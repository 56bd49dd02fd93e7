-- ===== src/Execution/Reconciliation/Settled.antt =====
-- What a sweep of services/execution-service/app/reconciliation.py leaves to the next one.
use vix_75_platform.Base.{
  ℕ, ◌≡◌, refl, ap, String, Bool, true, false, ◌&&◌, ◌||◌, ◌==◌, Option, none, some, [], ◌∷◌, ◌++◌,
  arith, sym, subst, ◌∙◌, is_some, ==_iff, Bool-cases, length, Option-cases, inl, inr,
}
use vix_75_platform.Base.Dict.{Dict}
use vix_75_platform.Base.NumberMap.{NumberMap, has, has-put, has-minus}
use vix_75_platform.Float.{Float}
use vix_75_platform.Json.{JsonValue}
use vix_75_platform.Redis.{Redis}
use vix_75_platform.Execution.Trades.{Trade, ExecutionDatabase}
use vix_75_platform.Execution.Trades.Closing.{
  has_ticket, closable, is_open, close_row, close_rows, newest_first, open_trades, close_by_ticket,
}
use vix_75_platform.Execution.Reconciliation.{
  TerminalView, SweepEnv, Reconciler, swept, after_update, put_row, rows_by_ticket, local_tickets,
  mt5_tickets, summarise_close, close_ghost, close_ghosts, ghosts_of, orphans_of, sweep,
  sweep_source, run_once,
}

module _ {F : Type 0} where
  -- A row that a close of the ticket would write, and one that a sweep would find.
  abbrev any_closable : ℕ → Dict (Trade F) → Bool
  any_closable u [] = false
  any_closable u ((k, row) ∷ rows) = closable u row || any_closable u rows

  abbrev any_open : ℕ → Dict (Trade F) → Bool
  any_open u [] = false
  any_open u ((k, row) ∷ rows) = (is_open row && has_ticket u row.broker_ticket) || any_open u rows

  abbrev any_ticket : ℕ → Dict (Trade F) → Bool
  any_ticket u [] = false
  any_ticket u ((k, row) ∷ rows) = has_ticket u row.broker_ticket || any_ticket u rows

  any_ticket-append :
      (u : ℕ) (xs ys : Dict (Trade F))
      → any_ticket u (xs ++ ys) ≡ (any_ticket u xs || any_ticket u ys)
  any_ticket-append u [] ys = refl
  any_ticket-append u ((k, row) ∷ xs) ys = ground (arith, any_ticket-append u xs ys)

  any_ticket-newest_first :
      (u : ℕ) (rows : Dict (Trade F)) → any_ticket u (newest_first rows) ≡ any_open u rows
  any_ticket-newest_first u [] = refl
  any_ticket-newest_first u ((k, row) ∷ rows) = ground (
    arith,
    any_ticket-newest_first u rows,
    any_ticket-append u (newest_first rows) ((k, row) ∷ []),
  )

  has-put_row :
      (u : ℕ) (t : Option ℕ) (row : String × Trade F) (m : NumberMap (String × Trade F))
      → has u (put_row t row m) ≡ (has_ticket u t || has u m)
  has-put_row u none row m = refl
  has-put_row u (some t) row m = has-put u t row m

  has-rows_by_ticket :
      (u : ℕ) (rows : Dict (Trade F)) (m : NumberMap (String × Trade F))
      → has u (rows_by_ticket rows m) ≡ (has u m || any_ticket u rows)
  has-rows_by_ticket u [] m = ground arith
  has-rows_by_ticket u ((k, row) ∷ rows) m = ground (
    arith,
    has-rows_by_ticket u rows (put_row row.broker_ticket (k, row) m),
    has-put_row u row.broker_ticket (k, row) m,
  )

  any_open-closable :
      (u : ℕ) (rows : Dict (Trade F)) → any_open u rows ≡ true → any_closable u rows ≡ true
  any_open-closable u [] h = h
  any_open-closable u ((k, row) ∷ rows) h = ground (arith, any_open-closable u rows)

  module _ (now : String) (profit : F) (exit_price : Option F) (extra : Dict (JsonValue F)) where
    close_rows_self :
        (t : ℕ) (rows : Dict (Trade F))
        → any_closable t (close_rows t (close_row now profit exit_price extra) rows) ≡ false
    close_rows_self t [] = refl
    close_rows_self t ((k, row) ∷ rows) = ground (arith, close_rows_self t rows)

    close_rows_other :
        (u t : ℕ) (rows : Dict (Trade F))
        → any_closable u rows ≡ false
        → any_closable u (close_rows t (close_row now profit exit_price extra) rows) ≡ false
    close_rows_other u t [] h = refl
    close_rows_other u t ((k, row) ∷ rows) h = ground (arith, close_rows_other u t rows)

    close_rows_open :
        (u t : ℕ) (rows : Dict (Trade F))
        → any_open u (close_rows t (close_row now profit exit_price extra) rows) ≡ true
        → any_open u rows ≡ true
    close_rows_open u t [] h = h
    close_rows_open u t ((k, row) ∷ rows) h = ground (arith, close_rows_open u t rows)

  has-local_tickets :
      (u : ℕ) (db : ExecutionDatabase F) → has u (local_tickets db) ≡ any_open u db.trades
  unfolding local_tickets open_trades
  has-local_tickets u db =
      ground (
        arith,
        has-rows_by_ticket u (newest_first db.trades) [],
        any_ticket-newest_first u db.trades,
      )

module _ {F R : Type 0} ⦃d : Float F⦄ ⦃c : Redis R⦄ (view : TerminalView F) where
  -- What closing ghosts does to the rows.
  record Follows (s s' : Reconciler F R) : Type 0 where
    pub symbol : s'.symbol ≡ s.symbol
    pub closed : (u : ℕ) → any_closable u s.db.trades ≡ false → any_closable u s'.db.trades ≡ false
    pub opened : (u : ℕ) → any_open u s'.db.trades ≡ true → any_open u s.db.trades ≡ true

  Follows-refl : (s : Reconciler F R) → Follows s s
  Follows-refl s = record { symbol = refl; closed = λ u h. h; opened = λ u h. h }

  Follows-trans : (x y z : Reconciler F R) → Follows x y → Follows y z → Follows x z
  Follows-trans x y z f g = record {
    symbol = g.symbol ∙ f.symbol;
    closed = λ u h. g.closed u (f.closed u h);
    opened = λ u h. f.opened u (g.opened u h);
  }

  module _ (env : SweepEnv) where
    after_update-db :
        (b : Bool) (db : ExecutionDatabase F) (entry : Dict String) (acc : Reconciler F R × ℕ)
        → ((after_update b db entry acc).0.db ≡ db)
          × ((after_update b db entry acc).0.symbol ≡ acc.0.symbol)
    after_update-db true db entry (s, n) = (refl, refl)
    after_update-db false db entry (s, n) = (refl, refl)

    pub close_ghost-rows :
        (t : ℕ) (row : String × Trade F) (exit_price : Option F) (profit : F) (s : Reconciler F R)
        (n : ℕ)
        → (close_ghost env view t row (some (exit_price, profit)) (s, n)).0.db.trades
          ≡ close_rows t (close_row env.now profit exit_price sweep_source) s.db.trades
    unfolding close_by_ticket
    close_ghost-rows t row exit_price profit s n =
        ap (λ x. x.trades) (after_update-db _ _ _ (s, n)).0

    close_ghost-Follows :
        (t : ℕ) (row : String × Trade F) (o : Option (Option F × F)) (acc : Reconciler F R × ℕ)
        → Follows acc.0 (close_ghost env view t row o acc).0
    close_ghost-Follows t row none (s, n) = Follows-refl s
    close_ghost-Follows t row (some (exit_price, profit)) (s, n) =
        let rows = close_ghost-rows t row exit_price profit s n in
        record {
          symbol = (after_update-db _ _ _ (s, n)).1;
          closed = λ u h.
              rw rows (close_rows_other env.now profit exit_price sweep_source u t s.db.trades h);
          opened = λ u h.
              close_rows_open env.now profit exit_price sweep_source u t s.db.trades (rw rows at h);
        }

    close_ghost_self :
        (t : ℕ) (row : String × Trade F) (o : Option (Option F × F)) (acc : Reconciler F R × ℕ)
        → is_some o ≡ true
        → any_closable t (close_ghost env view t row o acc).0.db.trades ≡ false
    close_ghost_self t row none (s, n) h = absurd (cc)
    close_ghost_self t row (some (exit_price, profit)) (s, n) h =
        rw (close_ghost-rows t row exit_price profit s n)
          (close_rows_self env.now profit exit_price sweep_source t s.db.trades)

    close_ghosts-Follows :
        (m : NumberMap (String × Trade F)) (acc : Reconciler F R × ℕ)
        → Follows acc.0 (close_ghosts env view m acc).0
    close_ghosts-Follows [] acc = Follows-refl acc.0
    close_ghosts-Follows ((t, row) ∷ m) acc =
        let o = summarise_close view t in
        Follows-trans _ _ _ (close_ghost-Follows t row o acc)
          (close_ghosts-Follows m (close_ghost env view t row o acc))

    close_ghosts_self :
        (u : ℕ) (m : NumberMap (String × Trade F)) (acc : Reconciler F R × ℕ)
        → has u m ≡ true
        → is_some (summarise_close view u) ≡ true
        → any_closable u (close_ghosts env view m acc).0.db.trades ≡ false
    close_ghosts_self u [] acc h k = absurd (cc)
    close_ghosts_self u ((t, row) ∷ m) acc h k =
        let o = summarise_close view t in
        let acc' = close_ghost env view t row o acc in
        elim (Bool-cases (t == u)) [
          | inl e ↦
              let same = (==_iff t u).0 e in
              let start : any_closable u acc'.0.db.trades ≡ false =
                subst (λ x. any_closable x acc'.0.db.trades ≡ false) same
                  (close_ghost_self t row o acc
                    (subst (λ x. is_some (summarise_close view x) ≡ true) (sym same) k)) in
              (close_ghosts-Follows m acc').closed u start
          | inr e ↦ close_ghosts_self u m acc' (ground arith) k
        ]

    -- Ghosts without a closing deal change nothing.
    close_ghosts-none :
        (m : NumberMap (String × Trade F)) (acc : Reconciler F R × ℕ)
        → ((u : ℕ) → has u m ≡ true → summarise_close view u ≡ none)
        → close_ghosts env view m acc ≡ acc
    close_ghosts-none [] acc h = refl
    close_ghosts-none ((t, row) ∷ m) acc h =
        rw (h t (ground arith)) (close_ghosts-none m acc (λ u k. h u (ground arith)))

    after_close :
        (s s' : Reconciler F R)
        → Follows s s'
        → ((u : ℕ)
            → has u (ghosts_of view s) ≡ true
            → is_some (summarise_close view u) ≡ true
            → any_closable u s'.db.trades ≡ false)
        → (u : ℕ) → has u (ghosts_of view s') ≡ true
        → summarise_close view u ≡ none
    after_close s s' f h u k =
        let here = has-minus u (local_tickets s'.db) (mt5_tickets s'.symbol view) in
        let there = has-minus u (local_tickets s.db) (mt5_tickets s.symbol view) in
        let gone : has u (mt5_tickets s.symbol view) ≡ false =
          subst (λ x. has u (mt5_tickets x view) ≡ false) f.symbol (ground (arith, here)) in
        let found : any_open u s'.db.trades ≡ true =
          ground (arith, here, has-local_tickets u s'.db) in
        elim (Option-cases (summarise_close view u)) [
          | inl e ↦ e
          | inr (x, e) ↦
              let closed =
                h u (ground (arith, there, gone, has-local_tickets u s.db, f.opened u found))
                  (rw e refl) in
              absurd (ground (arith, closed, any_open-closable u s'.db.trades found))
        ]

  -- A second sweep over the same answers of the terminal closes and publishes nothing and leaves
  -- the state as it is, whatever clock and fresh ids it has.
  pub run_once_again :
      (env env' : SweepEnv) (s : Reconciler F R)
      → let s' = (run_once env (some view) s).0 in
        run_once env' (some view) s' ≡ (s', swept (length (orphans_of view s')) 0)
  unfolding run_once sweep
  run_once_again env env' s =
      let ghosts = ghosts_of view s in
      let s' = (close_ghosts env view ghosts (s, 0)).0 in
      let settled =
        after_close env s s' (close_ghosts-Follows env ghosts (s, 0))
          (λ u h k. close_ghosts_self env u ghosts (s, 0) h k) in
      let same = close_ghosts-none env' (ghosts_of view s') (s', 0) settled in
      ap (λ (x : Reconciler F R × ℕ). (x.0, swept (length (orphans_of view s')) x.1)) same
