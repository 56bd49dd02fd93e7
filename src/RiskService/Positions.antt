-- ===== src/RiskService/Positions.antt =====
-- The number of open positions under services/risk-service/app: how an approval, a whole batch and a
-- full book change it.
use vix_75_platform.Base.{
  ℕ, ◌≤◌, ◌<◌, String, ◌≡◌, refl, inl, inr, Option, none, some, List, [], ◌∷◌, arith, length, sym,
}
use vix_75_platform.Base.Dict.{Dict}
use vix_75_platform.Base.Result.{Result, ok, raise, ◌>>=◌, Result-cases}
use vix_75_platform.Float.{Float}
use vix_75_platform.Json.{JsonLib}
use vix_75_platform.Redis.{Redis, RedisLaws}
use vix_75_platform.Schemas.{Signal}
use vix_75_platform.RiskService.Exposure.{
  ExposureTracker, OpenPosition, limits, preflight, refresh, register, decode_all, open_key,
  to_json,
}
use vix_75_platform.RiskService.Consumer.{
  Decision, approve, refuse, RiskSettings, RiskConsumer, decide, stream_approved, stream_rejected,
  approved-ne-rejected,
}
use vix_75_platform.RiskService.Handler.{
  RiskEnv, Message, act, conclude, respond, handle, handle_all, read_signal, order_of, position_for,
  order_entry, rejection_entry,
}

module _ {F : Type 0} ⦃d : Float F⦄ ⦃j : JsonLib F⦄ where
  length-decode_all :
      (raw : Dict String) (ps : Dict (OpenPosition F))
      → decode_all raw ≡ ok ps
      → length ps ≡ length raw
  unfolding decode_all
  length-decode_all [] ps e = ground arith
  length-decode_all ((k, v) ∷ raw) [] e = ground arith
  length-decode_all ((k, v) ∷ raw) (p ∷ ps) e = ground (arith, length-decode_all raw ps)

-- The positions that Redis holds.
abbrev pub position_count : {R : Type 0} ⦃c : Redis R⦄ → R → ℕ
position_count ⦃c⦄ r = length (c.hgetall open_key r)

module _ {F R : Type 0} ⦃d : Float F⦄ ⦃j : JsonLib F⦄ ⦃c : Redis R⦄ where
  -- A refreshed mirror holds as many positions as Redis.
  abbrev Mirrors : R → ExposureTracker F → Result (ExposureTracker F) → Type 0
  Mirrors r t (ok t') =
      (length t'.local ≡ position_count r) × (t'.max_open_trades ≡ t.max_open_trades)
  Mirrors r t (raise _) = Unit

  mirror_lem :
      (r : R) (t : ExposureTracker F) (m : Result (Dict (OpenPosition F)))
      → m ≡ decode_all (c.hgetall open_key r)
      → Mirrors r t (m >>= λ positions. ok (record t { local = positions }))
  mirror_lem r t (ok ps) e = (length-decode_all (c.hgetall open_key r) ps (sym e), refl)
  mirror_lem r t (raise _) e = tt

  refresh-Mirrors : (r : R) (t : ExposureTracker F) → Mirrors r t (refresh (some r) t)
  unfolding refresh
  refresh-Mirrors r t = mirror_lem r t _ refl

  -- An approval found room; the limit is the same after any answer.
  abbrev HasRoom : R → ExposureTracker F → ExposureTracker F × Result (Decision F) → Type 0
  HasRoom r t (t', ok (approve _ _)) =
      (t'.max_open_trades ≡ t.max_open_trades) × (position_count r < t.max_open_trades)
  HasRoom r t (t', ok (refuse _ _)) = t'.max_open_trades ≡ t.max_open_trades
  HasRoom r t (t', raise _) = t'.max_open_trades ≡ t.max_open_trades

  decide-HasRoom :
      (fuel : ℕ) (settings : RiskSettings F) (r : R) (t : ExposureTracker F) (signal : Signal F)
      → HasRoom r t (decide fuel settings r t signal)
  unfolding decide preflight limits
  decide-HasRoom fuel settings r t signal = ground (arith, refresh-Mirrors r t)

module _ {F R : Type 0} ⦃d : Float F⦄ ⦃j : JsonLib F⦄ ⦃c : Redis R⦄ where
  -- From one state to a later one the limit stays, no position is dropped, the limit is respected
  -- if it was, and no order is requested if the book was full.
  abbrev pub Keeps : RiskConsumer F R → RiskConsumer F R → Type 0
  Keeps s s' =
      (s'.tracker.max_open_trades ≡ s.tracker.max_open_trades)
      × (position_count s.redis ≤ position_count s'.redis)
      × (position_count s.redis ≤ s.tracker.max_open_trades
          → position_count s'.redis ≤ s.tracker.max_open_trades)
      × (s.tracker.max_open_trades ≤ position_count s.redis
          → c.stream stream_approved s'.redis ≡ c.stream stream_approved s.redis)

  Keeps-refl : (s : RiskConsumer F R) → Keeps s s
  Keeps-refl s = ground arith

  Keeps-trans : (s t u : RiskConsumer F R) → Keeps s t → Keeps t u → Keeps s u
  Keeps-trans s t u h k = ground (arith, h.2, h.3, k.2, k.3)

  module _ (laws : RedisLaws R) (env : RiskEnv F) where
    open laws use {length-hset, hgetall-xadd, stream-xadd_ne}

    conclude-Keeps :
        (cid : String) (signal : Signal F) (s : RiskConsumer F R)
        (answer : ExposureTracker F × Result (Decision F))
        → HasRoom s.redis s.tracker answer
        → Keeps s (conclude env cid signal s answer).0
    unfolding conclude act register
    conclude-Keeps cid signal s (t', ok (approve lots risk)) h = ground (
      arith,
      hgetall-xadd open_key stream_approved (order_entry env cid signal lots) s.redis,
      length-hset open_key signal.id (to_json (position_for env (order_of signal lots) risk))
          (c.xadd stream_approved (order_entry env cid signal lots) s.redis),
    )
    conclude-Keeps cid signal s (t', ok (refuse reason detail)) h =
        let entry = rejection_entry env cid signal reason detail in
        ground (
          arith,
          hgetall-xadd open_key stream_rejected entry s.redis,
          stream-xadd_ne stream_approved stream_rejected entry s.redis approved-ne-rejected,
        )
    conclude-Keeps cid signal s (t', raise e) h = ground arith

    respond-Keeps :
        (fuel : ℕ) (settings : RiskSettings F) (cid : String) (s : RiskConsumer F R)
        (payload : Result (Option (Signal F)))
        → Keeps s (respond env fuel settings cid s payload).0
    unfolding respond
    respond-Keeps fuel settings cid s (raise e) = Keeps-refl s
    respond-Keeps fuel settings cid s (ok none) = Keeps-refl s
    respond-Keeps fuel settings cid s (ok (some signal)) =
        conclude-Keeps cid signal s _ (decide-HasRoom fuel settings s.redis s.tracker signal)

    handle-Keeps :
        (fuel : ℕ) (settings : RiskSettings F) (decoded : Dict String) (s : RiskConsumer F R)
        → Keeps s (handle env fuel settings decoded s).0
    unfolding handle
    handle-Keeps fuel settings decoded s = respond-Keeps fuel settings _ s (read_signal env decoded)

    handle_all-Keeps :
        (fuel : ℕ) (settings : RiskSettings F) (messages : List Message) (s : RiskConsumer F R)
        → Keeps s (handle_all env fuel settings messages s).0
    unfolding handle_all
    handle_all-Keeps fuel settings [] s = Keeps-refl s
    handle_all-Keeps fuel settings ((id, fields) ∷ messages) s =
        let handled = handle env fuel settings fields s in
        let first = handle-Keeps fuel settings fields s in
        let rest = handle_all-Keeps fuel settings messages handled.0 in
        elim (Result-cases handled.1) [
          | inl (v, done) ↦
              rw (done, handle_all)
                (Keeps-trans s handled.0 (handle_all env fuel settings messages handled.0).0 first
                  rest)
          | inr (e, failed) ↦ rw (failed, handle_all) first
        ]

    -- Under the Redis laws, if the open positions in Redis are within `max_open_trades`, they
    -- still are after any batch of messages.
    pub handle_all_bounded :
        (fuel : ℕ) (settings : RiskSettings F) (messages : List Message) (s : RiskConsumer F R)
        → position_count s.redis ≤ s.tracker.max_open_trades
        → position_count (handle_all env fuel settings messages s).0.redis
          ≤ s.tracker.max_open_trades
    handle_all_bounded fuel settings messages s = (handle_all-Keeps fuel settings messages s).2

    -- Under the Redis laws, once the positions in Redis have reached `max_open_trades`, a batch of
    -- any messages requests no order, and the positions stay at the limit or above.
    pub handle_all_full :
        (fuel : ℕ) (settings : RiskSettings F) (messages : List Message) (s : RiskConsumer F R)
        → s.tracker.max_open_trades ≤ position_count s.redis
        → let s' = (handle_all env fuel settings messages s).0 in
          (s'.tracker.max_open_trades ≤ position_count s'.redis)
          × (c.stream stream_approved s'.redis ≡ c.stream stream_approved s.redis)
    handle_all_full fuel settings messages s h =
        let k = handle_all-Keeps fuel settings messages s in (omega (arith, k.0, k.1), k.3 h)
