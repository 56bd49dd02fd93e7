-- ===== src/RiskService/Gates.antt =====
-- What an approval of services/risk-service/app/consumer.py rests on.
use vix_75_platform.Base.{
  ℕ, ◌<◌, ◌≡◌, refl, subst, length, if◌then◌else◌, inl, inr, true, false, Option, none, some, arith,
  ap, ◌∙◌, Option-cases,
}
use vix_75_platform.Base.Result.{ok, ◌>>=◌, bind-eq-ok}
use vix_75_platform.Float.{Float, nought}
use vix_75_platform.Json.{JsonLib}
use vix_75_platform.Redis.{Redis}
use vix_75_platform.Schemas.{Signal}
use vix_75_platform.Sizing.{SymbolConstraints, LotSizingResult}
use vix_75_platform.Sizing.Bounds.{is_sized}
use vix_75_platform.RiskService.Exposure.{
  ExposureTracker, limits, preflight, refresh, decode_all, open_key, total_open_risk, open_count,
}
use vix_75_platform.RiskService.Validator.{
  AccountSnapshot, load_account, load_symbol_constraints, check_stops,
}
use vix_75_platform.RiskService.Consumer.{
  approve, RiskSettings, size_position, decision_of_sizing, size_gate, context_gate, snapshot_gates,
  balance_hint, decide,
}

ok_inj {ℓ} : {A : Type ℓ} {a b : A} → ok a ≡ ok b → a ≡ b
ok_inj h = cc

module _ {F : Type 0} ⦃d : Float F⦄ where
  -- An approval's size came out of `size_position`, with the stops in order.
  pub record IsSized (fuel : ℕ) (settings : RiskSettings F) (signal : Signal F)
      (account : AccountSnapshot F) (constraints : SymbolConstraints F) (lots : F) : Type 0 where
    pub stops : check_stops signal constraints ≡ none
    pub result : LotSizingResult F
    pub sizing :
        size_position fuel signal account constraints settings.risk_pct_per_trade
          settings.margin_usage_cap
        ≡ ok result
    pub status : is_sized result.status ≡ true
    pub lots_eq : lots ≡ result.lots

  decision_approved :
      (signal : Signal F) (constraints : SymbolConstraints F) (result : LotSizingResult F)
      {lots risk : F}
      → decision_of_sizing signal constraints result ≡ approve lots risk
      → (is_sized result.status ≡ true) × (lots ≡ result.lots)
  unfolding decision_of_sizing
  decision_approved signal constraints result e = ground arith

  size_gate_approved :
      (fuel : ℕ) (settings : RiskSettings F) (signal : Signal F) (account : AccountSnapshot F)
      (constraints : SymbolConstraints F) {lots risk : F}
      → size_gate fuel settings signal account constraints ≡ ok (approve lots risk)
      → IsSized fuel settings signal account constraints lots
  unfolding size_gate
  size_gate_approved fuel settings signal account constraints {lots} {risk} e =
      elim (Option-cases (check_stops signal constraints)) [
        | inl fine ↦
            let sizing =
              size_position fuel signal account constraints settings.risk_pct_per_trade
                settings.margin_usage_cap in
            let (result, eq, decided) =
              bind-eq-ok sizing (λ result. ok (decision_of_sizing signal constraints result))
                (rw (fine, size_gate) at e) in
            let (status, lots_eq) =
              decision_approved signal constraints result {lots = lots} {risk = risk}
                (cc decided) in
            record {
              stops = fine;
              result = result;
              sizing = eq;
              status = status;
              lots_eq = lots_eq;
            }
        | inr (detail, bad) ↦ ground arith
      ]

  context_gate_approved :
      (fuel : ℕ) (settings : RiskSettings F) (signal : Signal F) (a : Option (AccountSnapshot F))
      (c : Option (SymbolConstraints F)) {lots risk : F}
      → context_gate fuel settings signal a c ≡ ok (approve lots risk)
      → (account : AccountSnapshot F) × (constraints : SymbolConstraints F) × (a ≡ some account)
        × (c ≡ some constraints)
        × (size_gate fuel settings signal account constraints ≡ ok (approve lots risk))
  unfolding context_gate
  context_gate_approved fuel settings signal (some a) (some c) e = (a, c, refl, refl, e)
  context_gate_approved fuel settings signal (some a) none e = cc
  context_gate_approved fuel settings signal none c e = ground arith

module _ {F : Type 0} ⦃d : Float F⦄ ⦃j : JsonLib F⦄ where
  -- The share of the balance at risk in the open positions, in percent.
  abbrev pub exposure_pct : F → ExposureTracker F → F
  exposure_pct balance t =
      if d.lt nought balance
      then d.mul (d.div (total_open_risk t) balance) (d.lit 100 0)
      else nought

  limits-none :
      (balance : F) (t : ExposureTracker F)
      → limits balance t ≡ none
      → (length t.local < t.max_open_trades)
        × (d.le t.max_total_risk_pct (exposure_pct balance t) ≡ false)
  unfolding limits open_count
  limits-none balance t e = ground arith

module _ {F R : Type 0} ⦃d : Float F⦄ ⦃j : JsonLib F⦄ ⦃c : Redis R⦄ where
  -- The mirror holds the positions of Redis, under the limits that were set.
  pub record IsFresh (r : R) (t mirror : ExposureTracker F) : Type 0 where
    pub positions : decode_all (c.hgetall open_key r) ≡ ok mirror.local
    pub same_count : mirror.max_open_trades ≡ t.max_open_trades
    pub same_risk : mirror.max_total_risk_pct ≡ t.max_total_risk_pct

  -- What stands behind an approval of `lots` for a signal: both limits left room on the positions in
  -- Redis, both snapshots were there, and the size is that of `size_position`.
  pub record IsApproved (fuel : ℕ) (settings : RiskSettings F) (r : R)
      (t mirror : ExposureTracker F) (signal : Signal F) (lots : F) : Type 0 where
    pub fresh : IsFresh r t mirror
    pub balance : F
    pub balance_known : balance_hint r ≡ ok balance
    pub room : length mirror.local < t.max_open_trades
    pub risk_room : d.le t.max_total_risk_pct (exposure_pct balance mirror) ≡ false
    pub account : AccountSnapshot F
    pub account_known : load_account (some r) ≡ ok (some account)
    pub constraints : SymbolConstraints F
    pub constraints_known : load_symbol_constraints (some r) signal.symbol ≡ ok (some constraints)
    pub size : IsSized fuel settings signal account constraints lots

  refresh-IsFresh : (r : R) (t t' : ExposureTracker F) → refresh (some r) t ≡ ok t' → IsFresh r t t'
  unfolding refresh
  refresh-IsFresh r t t' e =
      let (ps, known, same) =
        bind-eq-ok (decode_all (c.hgetall open_key r))
          (λ positions. ok (record t { local = positions })) e in
      subst (IsFresh r t) (ok_inj same)
        (record { positions = known; same_count = refl; same_risk = refl })

  snapshot_gates_approved :
      (fuel : ℕ) (settings : RiskSettings F) (r : R) (signal : Signal F) {lots risk : F}
      → snapshot_gates fuel settings r signal ≡ ok (approve lots risk)
      → (account : AccountSnapshot F) × (constraints : SymbolConstraints F) × (load_account (some r)
          ≡ ok (some account))
        × (load_symbol_constraints (some r) signal.symbol ≡ ok (some constraints))
        × (size_gate fuel settings signal account constraints ≡ ok (approve lots risk))
  unfolding snapshot_gates
  snapshot_gates_approved fuel settings r signal {lots} {risk} e =
      let (a, known_a, e₁) =
        bind-eq-ok (load_account (some r))
          (λ a.
            load_symbol_constraints (some r) signal.symbol >>= context_gate fuel settings signal a)
          e in
      let (k, known_k, e₂) =
        bind-eq-ok (load_symbol_constraints (some r) signal.symbol)
          (context_gate fuel settings signal a) e₁ in
      let (account, constraints, is_a, is_k, sized_by) =
        context_gate_approved fuel settings signal a k {lots = lots} {risk = risk} e₂ in
      (account, constraints, known_a ∙ ap ok is_a, known_k ∙ ap ok is_k, sized_by)

  decide_gates :
      (fuel : ℕ) (settings : RiskSettings F) (r : R) (t t' : ExposureTracker F) (signal : Signal F)
      {lots risk : F}
      → decide fuel settings r t signal ≡ (t', ok (approve lots risk))
      → (balance : F) × (balance_hint r ≡ ok balance)
        × (refresh (some r) t ≡ ok t')
        × (limits balance t' ≡ none)
        × (snapshot_gates fuel settings r signal ≡ ok (approve lots risk))
  unfolding decide preflight
  decide_gates fuel settings r t t' signal e = ground arith

  -- If `_decide` approves a signal, the mirror that it leaves holds the decoded positions of
  -- Redis, fewer than `max_open_trades`; the balance hint is known and their share of it at risk
  -- is below `max_total_risk_pct`; the account and symbol snapshots are in Redis, the stops are
  -- accepted, and the approved lots are those of a successful `size_position`.
  pub decide-IsApproved :
      (fuel : ℕ) (settings : RiskSettings F) (r : R) (t t' : ExposureTracker F) (signal : Signal F)
      {lots risk : F}
      → decide fuel settings r t signal ≡ (t', ok (approve lots risk))
      → IsApproved fuel settings r t t' signal lots
  decide-IsApproved fuel settings r t t' signal {lots} {risk} e =
      let (balance, known, refreshed, room, passed) =
        decide_gates fuel settings r t t' signal {lots = lots} {risk = risk} e in
      let (account, constraints, known_a, known_c, sized_by) =
        snapshot_gates_approved fuel settings r signal {lots = lots} {risk = risk} passed in
      let fresh = refresh-IsFresh r t t' refreshed in
      let (count, risk_left) = limits-none balance t' room in
      record {
        fresh = fresh;
        balance = balance;
        balance_known = known;
        room = subst (λ n. length t'.local < n) fresh.same_count count;
        risk_room = subst (λ x. d.le x (exposure_pct balance t') ≡ false) fresh.same_risk risk_left;
        account = account;
        account_known = known_a;
        constraints = constraints;
        constraints_known = known_c;
        size =
            size_gate_approved fuel settings signal account constraints {lots = lots} {risk = risk}
              sized_by;
      }
