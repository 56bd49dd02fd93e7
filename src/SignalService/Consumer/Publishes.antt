-- ===== src/SignalService/Consumer/Publishes.antt =====
-- What services/signal-service/app/consumer.py publishes.
use vix_75_platform.Base.{
  ◌+◌, ◌≡◌, refl, String, Bool, true, false, Option, none, some, [], ◌∷◌, ◌++◌, if◌then◌else◌,
}
use vix_75_platform.Base.Dict.{Dict, text_eq}
use vix_75_platform.Base.Result.{Result, ok, raise, bind-eq-ok}
use vix_75_platform.Correlation.{get_or_create_correlation_id}
use vix_75_platform.Float.{Float, IsOrdered}
use vix_75_platform.Json.{JsonLib}
use vix_75_platform.Redis.{Redis, RedisLaws}
use vix_75_platform.Schemas.{RegimeState, Signal}
use vix_75_platform.SignalService.Engine.{LtfSnapshot, MarketContext, resolve_regime}
use vix_75_platform.SignalService.Engine.Fires.{Fires, evaluate-Fires}
use vix_75_platform.SignalService.Features.{SignalDatabase, fetch_ltf_row, insert_signal}
use vix_75_platform.SignalService.Consumer.{
  SignalEnv, SignalSettings, SignalConsumer, stream_generated, field_or_empty, market_context,
  regime_of, meta_of, signal_entry, publish, emit, judge_row, with_context, handle,
}

unknown_regime :
    (raw : String) (r : RegimeState) → raw ≡ "unknown" → resolve_regime raw ≡ some r → ⊥
unfolding resolve_regime text_eq
unknown_regime raw r e h = let k = rw (e, resolve_regime, text_eq) at h in cc

module _ {F R : Type 0} ⦃d : Float F⦄ ⦃j : JsonLib F⦄ ⦃c : Redis R⦄ (env : SignalEnv F) where
  module _ (settings : SignalSettings) (cid symbol timeframe : String) where
    -- A signal that the gates let through on the latest row and the context of the state, with its one
    -- entry.
    pub record Published (s s' : SignalConsumer F R) : Type 0 where
      pub signal : Signal F
      pub ltf : LtfSnapshot F
      pub market : MarketContext F
      pub latest : fetch_ltf_row symbol timeframe s.db ≡ ok (some ltf)
      pub context : market_context symbol settings s.redis s.db ≡ ok market
      pub gates : Fires s.engine ltf market signal
      pub entry :
          c.stream stream_generated s'.redis
          ≡ c.stream stream_generated s.redis ++ (signal_entry env cid signal ∷ [])
      pub fired : s'.signals_fired ≡ s.signals_fired + 1

    -- Either nothing changed, or one signal was published.
    pub data Publishes (s : SignalConsumer F R) : SignalConsumer F R → Type 0 where
      nothing : Publishes s s
      one : {s' : SignalConsumer F R} → Published s s' → Publishes s s'

module _ {F R : Type 0} ⦃d : Float F⦄ ⦃j : JsonLib F⦄ ⦃c : Redis R⦄ (laws : RedisLaws R)
    (o : IsOrdered F) (env : SignalEnv F) where
  open laws use {stream-xadd}

  module _ (settings : SignalSettings) (cid symbol timeframe : String) where
    module _ (s : SignalConsumer F R) where
      publish-Publishes :
          (ltf : LtfSnapshot F) (market : MarketContext F) (signal : Signal F)
          (r : Result (Bool × SignalDatabase F))
          → fetch_ltf_row symbol timeframe s.db ≡ ok (some ltf)
          → market_context symbol settings s.redis s.db ≡ ok market
          → Fires s.engine ltf market signal
          → Publishes env settings cid symbol timeframe s (publish env cid signal s r).0
      publish-Publishes ltf market signal (raise e) hr hm f = nothing
      publish-Publishes ltf market signal (ok (b, db)) hr hm f = one (record {
        signal = signal;
        ltf = ltf;
        market = market;
        latest = hr;
        context = hm;
        gates = f;
        entry = stream-xadd stream_generated (signal_entry env cid signal) s.redis;
        fired = refl;
      })

      emit-Publishes :
          (ltf : LtfSnapshot F) (market : MarketContext F) (fired : Option (Signal F))
          → fetch_ltf_row symbol timeframe s.db ≡ ok (some ltf)
          → market_context symbol settings s.redis s.db ≡ ok market
          → ((signal : Signal F) → fired ≡ some signal → Fires s.engine ltf market signal)
          → Publishes env settings cid symbol timeframe s (emit env cid s fired).0
      emit-Publishes ltf market none hr hm f = nothing
      emit-Publishes ltf market (some signal) hr hm f =
          publish-Publishes ltf market signal (insert_signal signal s.db) hr hm (f signal refl)

      judge_row-Publishes :
          (market : MarketContext F) (row : Result (Option (LtfSnapshot F)))
          → fetch_ltf_row symbol timeframe s.db ≡ row
          → market_context symbol settings s.redis s.db ≡ ok market
          → Publishes env settings cid symbol timeframe s (judge_row env cid market s row).0
      judge_row-Publishes market (raise e) hr hm = nothing
      judge_row-Publishes market (ok none) hr hm = nothing
      judge_row-Publishes market (ok (some ltf)) hr hm =
          emit-Publishes ltf market _ hr hm
            (evaluate-Fires o env.repr s.engine env.signal_id ltf market)

      with_context-Publishes :
          (market : Result (MarketContext F))
          → market_context symbol settings s.redis s.db ≡ market
          → Publishes env settings cid symbol timeframe s
              (with_context env cid symbol timeframe s market).0
      with_context-Publishes (raise e) hm = nothing
      with_context-Publishes (ok market) hm =
          judge_row-Publishes market (fetch_ltf_row symbol timeframe s.db) refl hm

      if-Publishes :
          (b : Bool) (r : SignalConsumer F R × Result (Unit {0}))
          → Publishes env settings cid symbol timeframe s r.0
          → Publishes env settings cid symbol timeframe s (if b then r else (s, ok tt)).0
      if-Publishes true r h = h
      if-Publishes false r h = nothing

  -- Under the Redis laws and a total order of floats, a message either leaves the signal service's
  -- state as it is, or adds one entry to signal.generated, which holds a signal that meets every
  -- gate of `evaluate` on the latest feature row and the market context of that state, and counts
  -- it.
  pub handle-Publishes :
      (settings : SignalSettings) (decoded : Dict String) (s : SignalConsumer F R)
      → Publishes env settings
          (get_or_create_correlation_id env.fresh_id decoded)
          (field_or_empty "symbol" decoded)
          (field_or_empty "timeframe" decoded)
          s
          (handle env settings decoded s).0
  unfolding handle
  handle-Publishes settings decoded s =
      let cid = get_or_create_correlation_id env.fresh_id decoded in
      let symbol = field_or_empty "symbol" decoded in
      let timeframe = field_or_empty "timeframe" decoded in
      if-Publishes settings cid symbol timeframe s _ _ (
        with_context-Publishes settings cid symbol timeframe s
          (market_context symbol settings s.redis s.db) refl)

  market_context-regime :
      (settings : SignalSettings) (symbol : String) (r : R) (db : SignalDatabase F)
      (m : MarketContext F)
      → regime_of F (c.get "regime:current" r) ≡ ok "unknown"
      → market_context symbol settings r db ≡ ok m
      → m.regime ≡ "unknown"
  unfolding market_context
  market_context-regime settings symbol r db m h hm =
      let (regime, e, k) = bind-eq-ok (regime_of F (c.get "regime:current" r)) _ hm in
      let (p_win, e', k') = bind-eq-ok (meta_of (c.get "meta_label:current" r)) _ k in cc

  Publishes-unknown :
      (settings : SignalSettings) (cid symbol timeframe : String) (s s' : SignalConsumer F R)
      → regime_of F (c.get "regime:current" s.redis) ≡ ok "unknown"
      → Publishes env settings cid symbol timeframe s s'
      → s' ≡ s
  Publishes-unknown settings cid symbol timeframe s s' h nothing = refl
  Publishes-unknown settings cid symbol timeframe s s' h (one p) =
      let e = market_context-regime settings symbol s.redis s.db p.market h p.context in
      absurd (unknown_regime p.market.regime p.gates.regime e p.gates.known_regime)

  -- Without a known regime in Redis nothing is published.
  pub handle_unknown :
      (settings : SignalSettings) (decoded : Dict String) (s : SignalConsumer F R)
      → regime_of F (c.get "regime:current" s.redis) ≡ ok "unknown"
      → (handle env settings decoded s).0 ≡ s
  handle_unknown settings decoded s h =
      Publishes-unknown settings _ _ _ s _ h (handle-Publishes settings decoded s)
