-- ===== src/Execution/Reconciliation/Spared.antt =====
-- The rows that a sweep of services/execution-service/app/reconciliation.py leaves alone, and what it
-- publishes.
use vix_75_platform.Base.{
  ℕ, ◌+◌, ◌≡◌, refl, String, Bool, true, false, ◌||◌, ◌==◌, not, Option, none, some, [], ◌∷◌, arith,
  length, length-append, ==_iff, ◌&&◌, List, Bool-cases, inl, inr,
}
use vix_75_platform.Base.Dict.{Dict, lookup, text_eq}
use vix_75_platform.Base.NumberMap.{NumberMap, put, has, has-minus, has-put}
use vix_75_platform.Float.{Float}
use vix_75_platform.Redis.{Redis, RedisLaws}
use vix_75_platform.Execution.Trades.{Trade, ExecutionDatabase}
use vix_75_platform.Execution.Trades.Closing.{is_null, closable, close_rows, close_by_ticket}
use vix_75_platform.Execution.Reconciliation.{
  Position, by_ticket, of_symbol, TerminalView, SweepEnv, Reconciler, swept, stream_closed,
  local_tickets, mt5_tickets, after_update, summarise_close, close_ghost, close_ghosts, ghosts_of,
  sweep, run_once,
}
use vix_75_platform.Execution.Reconciliation.Settled.{close_ghost-rows}

-- The terminal holds a position of the ticket, of the symbol or of none.
abbrev pub holds : String → List Position → ℕ → Bool
holds symbol [] t = false
holds symbol (p ∷ ps) t =
    ((p.ticket == t) && (elim p.symbol [ none ↦ true | some s ↦ text_eq s symbol ]))
    || holds symbol ps t

put_has :
    (t u : ℕ) (p : Position) (m : NumberMap Position) → has t m ≡ true → has t (put u p m) ≡ true
put_has t u p m h = ground (arith, has-put t u p m)

by_ticket-has :
    (symbol : String) (t : ℕ) (ps : List Position) (m : NumberMap Position)
    → has t m ≡ true
    → has t (by_ticket symbol ps m) ≡ true
by_ticket-has symbol t [] m h = h
by_ticket-has symbol t (p ∷ ps) m h = elim (Bool-cases (of_symbol symbol p.symbol)) [
  | inl e ↦ rw e (by_ticket-has symbol t ps (put p.ticket p m) (put_has t p.ticket p m h))
  | inr e ↦ rw e (by_ticket-has symbol t ps m h)
]

holds-has :
    (symbol : String) (t : ℕ) (ps : List Position) (m : NumberMap Position)
    → holds symbol ps t ≡ true
    → has t (by_ticket symbol ps m) ≡ true
holds-has symbol t [] m h = absurd (cc)
holds-has symbol t (p ∷ ps) m h = elim (Bool-cases (of_symbol symbol p.symbol)) [
  | inr e ↦ rw e (holds-has symbol t ps m (ground (arith, e)))
  | inl e ↦ elim (Bool-cases (p.ticket == t)) [
    | inl same ↦
        rw e (by_ticket-has symbol t ps (put p.ticket p m) (ground (arith, has-put t p.ticket p m)))
    | inr other ↦ rw e (holds-has symbol t ps (put p.ticket p m) (ground arith))
  ]
]

module _ {F : Type 0} where
  -- A row that is closed already, has no ticket, or has the ticket of such a position.
  abbrev pub is_spared : String → TerminalView F → Trade F → Bool
  is_spared symbol view row = not (is_null row.closed_at) || (elim row.broker_ticket [
    | none ↦ true
    | some t ↦ elim view.positions [ none ↦ false | some ps ↦ holds symbol ps t ]
  ])

  spared-has :
      (symbol : String) (view : TerminalView F) (positions : Option (List Position)) (t : ℕ)
      → view.positions ≡ positions
      → elim positions [ none ↦ false | some ps ↦ holds symbol ps t ] ≡ true
      → has t (mt5_tickets symbol view) ≡ true
  unfolding mt5_tickets
  spared-has symbol view none t e h = absurd (cc)
  spared-has symbol view (some ps) t e h = rw (e, mt5_tickets) (holds-has symbol t ps [] h)

  lookup-close_rows :
      (k : String) (t : ℕ) (f : Trade F → Trade F) (row : Trade F) (rows : Dict (Trade F))
      → lookup k rows ≡ some row
      → closable t row ≡ false
      → lookup k (close_rows t f rows) ≡ some row
  lookup-close_rows k t f row [] h e = absurd (cc)
  lookup-close_rows k t f row ((j, x) ∷ rows) h e = ground (arith, lookup-close_rows k t f row rows)

  has_same :
      (t u : ℕ) (symbol : String) (view : TerminalView F)
      → (u == t) ≡ true
      → has u (mt5_tickets symbol view) ≡ true
      → has t (mt5_tickets symbol view) ≡ true
  has_same t u symbol view e h = let same = (==_iff u t).0 e in cc

module _ {F R : Type 0} ⦃d : Float F⦄ ⦃c : Redis R⦄ (env : SweepEnv) (view : TerminalView F) where
  lookup-close_ghost :
      (k : String) (row : Trade F) (t : ℕ) (ghost : String × Trade F) (o : Option (Option F × F))
      (acc : Reconciler F R × ℕ)
      → lookup k acc.0.db.trades ≡ some row
      → closable t row ≡ false
      → lookup k (close_ghost env view t ghost o acc).0.db.trades ≡ some row
  lookup-close_ghost k row t ghost none acc h e = h
  lookup-close_ghost k row t ghost (some (exit_price, profit)) (s, n) h e =
      rw (close_ghost-rows view env t ghost exit_price profit s n)
        (lookup-close_rows k t _ row s.db.trades h e)

  lookup-close_ghosts :
      (k : String) (row : Trade F) (m : NumberMap (String × Trade F)) (acc : Reconciler F R × ℕ)
      → lookup k acc.0.db.trades ≡ some row
      → ((t : ℕ) → has t m ≡ true → closable t row ≡ false)
      → lookup k (close_ghosts env view m acc).0.db.trades ≡ some row
  lookup-close_ghosts k row [] acc h e = h
  lookup-close_ghosts k row ((t, ghost) ∷ m) acc h e =
      lookup-close_ghosts k row m (close_ghost env view t ghost (summarise_close view t) acc)
        (lookup-close_ghost k row t ghost (summarise_close view t) acc h (e t (ground arith)))
        (λ u k'. e u (ground arith))

  ghosts_of-closable :
      (row : Trade F) (ticket : Option ℕ) (s : Reconciler F R) (t : ℕ)
      → row.broker_ticket ≡ ticket
      → is_spared s.symbol view row ≡ true
      → has t (ghosts_of view s) ≡ true
      → closable t row ≡ false
  ghosts_of-closable row none s t e h k = rw e refl
  ghosts_of-closable row (some u) s t e h k =
      let other = has-minus t (local_tickets s.db) (mt5_tickets s.symbol view) in
      ground (
        arith,
        e,
        other,
        spared-has s.symbol view view.positions u refl,
        has_same t u s.symbol view,
      )

  -- A sweep leaves a row as it is if the row is closed, has no ticket, or has the ticket of a
  -- position of the terminal that names the service's symbol or none.
  pub run_once_spares :
      (k : String) (row : Trade F) (s : Reconciler F R)
      → lookup k s.db.trades ≡ some row
      → is_spared s.symbol view row ≡ true
      → lookup k (run_once env (some view) s).0.db.trades ≡ some row
  unfolding run_once sweep
  run_once_spares k row s h e =
      lookup-close_ghosts k row (ghosts_of view s) (s, 0) h
        (λ t. ghosts_of-closable row row.broker_ticket s t refl e)

  module _ (laws : RedisLaws R) where
    open laws use {stream-xadd}

    -- The entries on the stream beyond a number that is closed.
    record IsPublished (n : ℕ) (acc : Reconciler F R × ℕ) : Type 0 where
      pub entries : length (c.stream stream_closed acc.0.redis) ≡ n + acc.1

    after_update-IsPublished :
        (n : ℕ) (b : Bool) (db : ExecutionDatabase F) (entry : Dict String)
        (acc : Reconciler F R × ℕ)
        → IsPublished n acc
        → IsPublished n (after_update b db entry acc)
    after_update-IsPublished n true db entry (s, closed) h = record {
      entries = ground (
        arith,
        h.entries,
        stream-xadd stream_closed entry s.redis,
        length-append (c.stream stream_closed s.redis) (entry ∷ []),
      );
    }
    after_update-IsPublished n false db entry (s, closed) h = record { entries = h.entries }

    close_ghost-IsPublished :
        (n t : ℕ) (ghost : String × Trade F) (o : Option (Option F × F)) (acc : Reconciler F R × ℕ)
        → IsPublished n acc
        → IsPublished n (close_ghost env view t ghost o acc)
    unfolding close_by_ticket
    close_ghost-IsPublished n t ghost none acc h = h
    close_ghost-IsPublished n t ghost (some (exit_price, profit)) (s, closed) h =
        after_update-IsPublished n _ _ _ (s, closed) h

    close_ghosts-IsPublished :
        (n : ℕ) (m : NumberMap (String × Trade F)) (acc : Reconciler F R × ℕ)
        → IsPublished n acc
        → IsPublished n (close_ghosts env view m acc)
    close_ghosts-IsPublished n [] acc h = h
    close_ghosts-IsPublished n ((t, ghost) ∷ m) acc h =
        close_ghosts-IsPublished n m _
          (close_ghost-IsPublished n t ghost (summarise_close view t) acc h)

  -- As many entries are published as the sweep counts.
  pub run_once-length :
      (laws : RedisLaws R) (s : Reconciler F R) (orphans closed : ℕ)
      → (run_once env (some view) s).1 ≡ swept orphans closed
      → length (c.stream stream_closed (run_once env (some view) s).0.redis)
        ≡ length (c.stream stream_closed s.redis) + closed
  unfolding run_once sweep
  run_once-length laws s orphans closed h =
      let n = length (c.stream stream_closed s.redis) in
      let r =
        close_ghosts-IsPublished laws n (ghosts_of view s) (s, 0)
          (record { entries = omega arith }) in
      ground (arith, r.entries, h)
