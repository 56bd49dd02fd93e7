-- ===== src/FeatureService/Consumer/Settled.antt =====
-- What becomes of a bar event in services/feature-service/app/consumer.py.
use vix_75_platform.Base.{
  ℕ, ◌<◌, ◌≤◌, arith, ◌+◌, ◌≡◌, ◌≢◌, ◌⊎◌, refl, String, Bool, true, false, Option, none, some, [],
  ◌∷◌, ◌++◌, leb, ltb, length, is_some, inl, inr, if◌then◌else◌,
}
use vix_75_platform.Base.Dict.{Dict, lookup, text_eq, text_eq_iff}
use vix_75_platform.Base.Result.{Result, ok, raise, attribute_error, Result-cases}
use vix_75_platform.Correlation.{get_text}
use vix_75_platform.Float.{Float}
use vix_75_platform.Redis.{Redis, RedisLaws}
use vix_75_platform.NotifyService.Consumer.{MessageId, str}
use vix_75_platform.FeatureService.Compute.{Snapshot}
use vix_75_platform.FeatureService.Consumer.{
  FeatureEnv, FeatureConsumer, Message, stream_out, stream_dlq, max_deliveries, min_bars,
  delivery_count, ack_again, dead_letter, store, process_bar_event, finish, handle_event, handle,
}

dlq-out : stream_dlq ≢ stream_out
unfolding text_eq
dlq-out e = let k = (text_eq_iff stream_dlq stream_out).1 e in cc

module _ {F R : Type 0} ⦃d : Float F⦄ ⦃c : Redis R⦄ (id : MessageId) (s : FeatureConsumer F R) where
  -- Counted and acknowledged, with nothing on the dead-letter stream.
  pub record IsProcessed (s' : FeatureConsumer F R) : Type 0 where
    pub counted : s'.processed ≡ s.processed + 1
    pub acked : s'.acked ≡ s.acked ++ (id ∷ [])
    pub not_buried : c.stream stream_dlq s'.redis ≡ c.stream stream_dlq s.redis

  -- What becomes of a message with this number of deliveries, symbol, timeframe and time.
  pub data Settled (deliveries : ℕ) (symbol timeframe ts : Option String)
      : FeatureConsumer F R × Result (Unit {0}) → Type 0 where
    processed :
        {s' : FeatureConsumer F R}
        → IsProcessed s'
        → Settled deliveries symbol timeframe ts (s', ok tt)
    left_pending : deliveries < max_deliveries → Settled deliveries symbol timeframe ts (s, ok tt)
    malformed :
        (symbol ≡ none) ⊎ (timeframe ≡ none) ⊎ (ts ≡ none)
        → Settled deliveries symbol timeframe ts (s, raise attribute_error)
    given_up :
        max_deliveries ≤ deliveries
        → Settled deliveries symbol timeframe ts (s, raise attribute_error)

module _ {F R : Type 0} ⦃d : Float F⦄ ⦃c : Redis R⦄ (laws : RedisLaws R) (env : FeatureEnv F) where
  open laws use {stream-xadd_ne}

  -- The computation keeps the acknowledgements, the count and the dead-letter stream.
  record Keeps (s s' : FeatureConsumer F R) : Type 0 where
    pub acked : s'.acked ≡ s.acked
    pub counted : s'.processed ≡ s.processed
    pub not_buried : c.stream stream_dlq s'.redis ≡ c.stream stream_dlq s.redis

  abbrev KeptBy : FeatureConsumer F R → Result (FeatureConsumer F R) → Type 0
  KeptBy s (ok s') = Keeps s s'
  KeptBy s (raise e) = Unit

  store-KeptBy :
      (cid : String) (snapshot : Result (Snapshot F)) (s : FeatureConsumer F R)
      → KeptBy s (store env cid snapshot s)
  store-KeptBy cid (raise e) s = tt
  store-KeptBy cid (ok snapshot) s = record {
    acked = refl;
    counted = refl;
    not_buried = stream-xadd_ne stream_dlq stream_out _ s.redis dlq-out;
  }

  if-KeptBy :
      (b : Bool) (s : FeatureConsumer F R) (x y : Result (FeatureConsumer F R))
      → KeptBy s x
      → KeptBy s y
      → KeptBy s (if b then x else y)
  if-KeptBy true s x y h k = h
  if-KeptBy false s x y h k = k

  process-KeptBy :
      (symbol timeframe cid : String) (s : FeatureConsumer F R)
      → KeptBy s (process_bar_event env symbol timeframe cid s)
  unfolding process_bar_event
  process-KeptBy symbol timeframe cid s = elim (Result-cases (env.fetch_bars symbol timeframe)) [
    | inr (e, eq) ↦ rw (eq, process_bar_event) tt
    | inl (bars, eq) ↦
        rw (eq, process_bar_event)
          (if-KeptBy (ltb (length bars) min_bars) s _ _
            (record { acked = refl; counted = refl; not_buried = refl }) (store-KeptBy cid _ s))
  ]

  module _ (symbol timeframe : Option String) (id : String) (fields : Dict String)
      (s : FeatureConsumer F R) where
    abbrev Ends : FeatureConsumer F R × Result (Unit {0}) → Type 0
    Ends r = Settled (str id) s (delivery_count env.pending) symbol timeframe (lookup "ts" fields) r

    dead_letter-Ends :
        (symbol ≡ none) ⊎ (timeframe ≡ none) ⊎ (lookup "ts" fields ≡ none)
        → Ends (dead_letter (str id) fields "malformed" s)
    unfolding dead_letter
    dead_letter-Ends h = malformed h

    ack_again-Ends :
        max_deliveries ≤ delivery_count env.pending
        → Ends (ack_again env (str id) (dead_letter (str id) fields "max_deliveries" s))
    unfolding dead_letter
    ack_again-Ends h = given_up h

    if-Ends :
        (b : Bool) (x y : FeatureConsumer F R × Result (Unit {0}))
        → (b ≡ true → Ends x)
        → (b ≡ false → Ends y)
        → Ends (if b then x else y)
    if-Ends true x y h k = h refl
    if-Ends false x y h k = k refl

    finish-Ends :
        (r : Result (FeatureConsumer F R)) → KeptBy s r → Ends (finish env (str id) fields s r)
    finish-Ends (ok s') k =
        processed (record {
          counted = rw k.counted refl;
          acked = rw k.acked refl;
          not_buried = k.not_buried;
        })
    finish-Ends (raise e) k =
        if-Ends (leb max_deliveries (delivery_count env.pending)) _ _
          (λ many. ack_again-Ends (ground (arith, many)))
          (λ few. left_pending (ground (arith, few)))

  handle_event-Ends :
      (symbol timeframe : Option String) (id : String) (fields : Dict String)
      (s : FeatureConsumer F R)
      → Ends symbol timeframe id fields s (handle_event env (str id) fields symbol timeframe s)
  handle_event-Ends (some symbol) (some timeframe) id fields s =
      if-Ends (some symbol) (some timeframe) id fields s (is_some (lookup "ts" fields)) _ _
        (λ _.
          finish-Ends (some symbol) (some timeframe) id fields s _
            (process-KeptBy symbol timeframe _ s))
        (λ no_ts.
          dead_letter-Ends (some symbol) (some timeframe) id fields s
            (inr (inr (ground (arith, no_ts)))))
  handle_event-Ends none timeframe id fields s =
      dead_letter-Ends none timeframe id fields s (inl refl)
  handle_event-Ends (some symbol) none id fields s =
      dead_letter-Ends (some symbol) none id fields s (inr (inl refl))

  -- Under the Redis laws, a message whose id is a text is counted and acknowledged with nothing
  -- written to the dead-letter stream; or the handler returns with the state as it was, and the
  -- message has had fewer than three deliveries; or it raises an AttributeError with the state as
  -- it was, and the message lacks its symbol, timeframe or time or has had three deliveries or
  -- more.
  pub handle-Settled :
      (id : String) (fields : Dict String) (s : FeatureConsumer F R)
      → let message : Message = record { message_id = str id; fields = fields } in
        Settled
          (str id)
          s
          (delivery_count env.pending)
          (get_text "symbol" fields)
          (get_text "timeframe" fields)
          (lookup "ts" fields)
          (handle env message s)
  unfolding handle
  handle-Settled id fields s =
      handle_event-Ends (get_text "symbol" fields) (get_text "timeframe" fields) id fields s

module _ {F R : Type 0} ⦃d : Float F⦄ ⦃c : Redis R⦄ (env : FeatureEnv F) where
  event_raises :
      (id : String) (fields : Dict String) (symbol timeframe : Option String)
      (s : FeatureConsumer F R)
      → (symbol ≡ none) ⊎ (timeframe ≡ none) ⊎ (lookup "ts" fields ≡ none)
      → handle_event env (str id) fields symbol timeframe s ≡ (s, raise attribute_error)
  unfolding dead_letter
  event_raises id fields none timeframe s h = refl
  event_raises id fields (some symbol) none s h = refl
  event_raises id fields (some symbol) (some timeframe) s (inl e) = absurd (cc)
  event_raises id fields (some symbol) (some timeframe) s (inr (inl e)) = absurd (cc)
  event_raises id fields (some symbol) (some timeframe) s (inr (inr e)) = rw e refl

  -- A message whose id is a text and which lacks the symbol, the timeframe or the time makes the
  -- feature service's handler raise an AttributeError, and leaves its state as it is.
  pub handle_raises :
      (id : String) (fields : Dict String) (s : FeatureConsumer F R)
      → (get_text "symbol" fields ≡ none)
        ⊎ (get_text "timeframe" fields ≡ none)
        ⊎ (lookup "ts" fields ≡ none)
      → handle env (record { message_id = str id; fields = fields }) s ≡ (s, raise attribute_error)
  unfolding handle
  handle_raises id fields s h = event_raises id fields _ _ s h
