-- ===== src/RiskService/Outcome.antt =====
-- What `_handle` of services/risk-service/app/consumer.py sends for a signal, and how an exception
-- ends a batch.
use vix_75_platform.Base.{ℕ, ◌+◌, String, ◌≡◌, none, some, List, [], ◌∷◌, ◌++◌, arith, sym}
use vix_75_platform.Base.Dict.{Dict, lookup, text_eq_refl}
use vix_75_platform.Base.Result.{ok, raise, value_error}
use vix_75_platform.Correlation.{get_or_create_correlation_id}
use vix_75_platform.Float.{Float, nought, ◌≼◌}
use vix_75_platform.Json.{JsonLib}
use vix_75_platform.Redis.{Redis, RedisLaws}
use vix_75_platform.Schemas.{Signal}
use vix_75_platform.Sizing.{SymbolConstraints}
use vix_75_platform.Sizing.Outcomes.{IsSizable, compute_lots_bad_step}
use vix_75_platform.RiskService.Exposure.{
  ExposureTracker, limits, preflight, refresh, register, open_key, to_json,
}
use vix_75_platform.RiskService.Validator.{
  AccountSnapshot, load_account, load_symbol_constraints, check_stops,
}
use vix_75_platform.RiskService.Consumer.{
  Decision, approve, refuse, RiskSettings, RiskConsumer, size_position, size_gate, context_gate,
  snapshot_gates, balance_hint, decide, stream_approved, stream_rejected, approved-ne-rejected,
}
use vix_75_platform.RiskService.Handler.{
  RiskEnv, Message, act, conclude, respond, handle, handle_all, read_signal, order_of, position_for,
  order_entry, rejection_entry,
}
use vix_75_platform.RiskService.Safety.{sizing_input}

module _ {F R : Type 0} ⦃d : Float F⦄ ⦃j : JsonLib F⦄ ⦃c : Redis R⦄ (env : RiskEnv F) where
  -- An approval sends one order request, and no rejection, and registers the position under the
  -- signal's id; a refusal sends one rejection, and no order request.
  abbrev pub Sends : String → Signal F → Decision F → RiskConsumer F R → RiskConsumer F R → Type 0
  Sends cid signal (approve lots risk) s s' =
      (c.stream stream_approved s'.redis
        ≡ c.stream stream_approved s.redis ++ (order_entry env cid signal lots ∷ []))
      × (c.stream stream_rejected s'.redis ≡ c.stream stream_rejected s.redis)
      × (lookup signal.id (c.hgetall open_key s'.redis)
          ≡ some (to_json (position_for env (order_of signal lots) risk)))
      × (s'.approved_count ≡ s.approved_count + 1)
      × (s'.processed ≡ s.processed + 1)
  Sends cid signal (refuse reason detail) s s' =
      (c.stream stream_rejected s'.redis
        ≡ c.stream stream_rejected s.redis ++ (rejection_entry env cid signal reason detail ∷ []))
      × (c.stream stream_approved s'.redis ≡ c.stream stream_approved s.redis)
      × (c.hgetall open_key s'.redis ≡ c.hgetall open_key s.redis)
      × (s'.rejected_count ≡ s.rejected_count + 1)
      × (s'.processed ≡ s.processed + 1)

  module _ (laws : RedisLaws R) where
    open laws use {lookup-hset, stream-hset, hgetall-xadd, stream-xadd, stream-xadd_ne}

    conclude-Sends :
        (cid : String) (signal : Signal F) (t : ExposureTracker F) (decision : Decision F)
        (s : RiskConsumer F R)
        → let s' = (conclude env cid signal s (t, ok decision)).0 in
          Sends cid signal decision s (record s' { processed = s'.processed + 1 })
    unfolding conclude act register
    conclude-Sends cid signal t (approve lots risk) s =
        let entry = order_entry env cid signal lots in
        let raw = to_json (position_for env (order_of signal lots) risk) in
        let sent = c.xadd stream_approved entry s.redis in
        ground (
          arith,
          stream-hset stream_approved open_key signal.id raw sent,
          stream-hset stream_rejected open_key signal.id raw sent,
          stream-xadd stream_approved entry s.redis,
          stream-xadd_ne stream_rejected stream_approved entry s.redis
              (λ e. approved-ne-rejected (sym e)),
          lookup-hset open_key signal.id signal.id raw sent,
          text_eq_refl signal.id,
        )
    conclude-Sends cid signal t (refuse reason detail) s =
        let entry = rejection_entry env cid signal reason detail in
        ground (
          arith,
          stream-xadd stream_rejected entry s.redis,
          stream-xadd_ne stream_approved stream_rejected entry s.redis approved-ne-rejected,
          hgetall-xadd open_key stream_rejected entry s.redis,
        )

    -- Under the Redis laws, a message with a valid signal that is decided leaves, when approved,
    -- exactly one order request, no rejection and the position under the signal's id, and when
    -- refused, exactly one rejection, no order request and the same positions; the matching
    -- counters rise by one.
    pub handle_outcome :
        (fuel : ℕ) (settings : RiskSettings F) (decoded : Dict String) (s : RiskConsumer F R)
        (signal : Signal F) (t : ExposureTracker F) (decision : Decision F)
        → read_signal env decoded ≡ ok (some signal)
        → decide fuel settings s.redis s.tracker signal ≡ (t, ok decision)
        → Sends
            (get_or_create_correlation_id env.fresh_id decoded)
            signal
            decision
            s
            (handle env fuel settings decoded s).0
    unfolding handle respond
    handle_outcome fuel settings decoded s signal t decision valid decided =
        rw (valid, respond, decided)
          (conclude-Sends (get_or_create_correlation_id env.fresh_id decoded) signal t decision s)

  -- A signal that passes every gate up to the sizing, for a symbol whose cached volume step is not
  -- positive.
  pub record MeetsBadStep (settings : RiskSettings F) (s : RiskConsumer F R) (signal : Signal F)
      : Type 0 where
    pub balance : F
    pub mirror : ExposureTracker F
    pub account : AccountSnapshot F
    pub constraints : SymbolConstraints F
    pub balance_known : balance_hint s.redis ≡ ok balance
    pub refreshed : refresh (some s.redis) s.tracker ≡ ok mirror
    pub room : limits balance mirror ≡ none
    pub account_known : load_account (some s.redis) ≡ ok (some account)
    pub constraints_known :
        load_symbol_constraints (some s.redis) signal.symbol ≡ ok (some constraints)
    pub sizable : IsSizable (sizing_input settings signal account constraints)
    pub bad_step : constraints.volume_step ≼ nought

  decide_bad_step :
      (fuel : ℕ) (settings : RiskSettings F) (signal : Signal F) (s : RiskConsumer F R)
      (m : MeetsBadStep settings s signal)
      → decide fuel settings s.redis s.tracker signal
        ≡ (m.mirror, raise (value_error "volume_step must be positive"))
  unfolding decide preflight snapshot_gates context_gate size_gate check_stops size_position
  decide_bad_step fuel settings signal s m =
      let i = sizing_input settings signal m.account m.constraints in
      ground (
        arith,
        m.balance_known,
        m.refreshed,
        m.room,
        m.account_known,
        m.constraints_known,
        m.sizable.stops,
        compute_lots_bad_step fuel i m.sizable m.bad_step,
      )

  -- If a valid signal passes every gate before the sizing and its symbol's cached volume step is
  -- not positive, the batch ends with a `ValueError`: no message is acknowledged from it on, Redis
  -- is unchanged and no rejection is counted.
  pub handle_all_bad_step :
      (fuel : ℕ) (settings : RiskSettings F) (id : String) (decoded : Dict String)
      (messages : List Message) (s : RiskConsumer F R) (signal : Signal F)
      → read_signal env decoded ≡ ok (some signal)
      → MeetsBadStep settings s signal
      → let (s', acked, outcome) = handle_all env fuel settings ((id, decoded) ∷ messages) s in
        (acked ≡ [])
        × (outcome ≡ raise (value_error "volume_step must be positive"))
        × (s'.redis ≡ s.redis)
        × (s'.rejected_count ≡ s.rejected_count)
  unfolding handle_all handle respond conclude
  handle_all_bad_step fuel settings id decoded messages s signal valid m =
      ground (arith, valid, decide_bad_step fuel settings signal s m)
