-- ===== src/MlService/Worker/Regime.antt =====
-- What the signal service makes of the regime that services/ml-service/app/worker.py caches.
use vix_75_platform.Base.{ℕ, ◌≡◌, ◌⊎◌, refl, ap, ◌∙◌, String, true, some, arith, any, inl, inr}
use vix_75_platform.Base.Dict.{Dict, text_eq}
use vix_75_platform.Base.Result.{ok}
use vix_75_platform.Correlation.{get_or_create_correlation_id}
use vix_75_platform.Float.{Float, IsOrdered}
use vix_75_platform.Json.{JsonLib, JsonValue, ReadsBack}
use vix_75_platform.Redis.{Redis, RedisLaws}
use vix_75_platform.SignalService.Engine.{resolve_regime}
use vix_75_platform.SignalService.Consumer.{
  SignalEnv, SignalSettings, SignalConsumer, field_or_empty, known_regime, regime_of,
}
use vix_75_platform.SignalService.Consumer
use vix_75_platform.SignalService.Consumer.Publishes.{handle_unknown}
use vix_75_platform.MlService.Worker.{
  MlEnv, Inference, InferenceWorker, regime_key, meta_key, inference_timeframes, canonical_order,
  regime_label, regime_fields, regime_document, meta_document, cache, handle,
}

label_lem :
    (lowest middle highest best : ℕ)
    → (best ≡ lowest) ⊎ (best ≡ middle) ⊎ (best ≡ highest)
    → let l = regime_label (canonical_order lowest middle highest) best in
      (l ≡ "S0") ⊎ (l ≡ "S1") ⊎ (l ≡ "S2")
label_lem lowest middle highest best h = ground arith

short_regime :
    (l : String)
    → (l ≡ "S0") ⊎ (l ≡ "S1") ⊎ (l ≡ "S2")
    → known_regime (resolve_regime l) ≡ "unknown"
unfolding resolve_regime text_eq
short_regime l (inl e) = rw e refl
short_regime l (inr (inl e)) = rw e refl
short_regime l (inr (inr e)) = rw e refl

module _ {F R : Type 0} ⦃d : Float F⦄ ⦃j : JsonLib F⦄ ⦃c : Redis R⦄ (laws : RedisLaws R)
    (o : IsOrdered F) where
  open laws use {get-put}

  get-cache :
      (regime meta : Dict (JsonValue F)) (w : InferenceWorker R)
      → c.get "regime:current" (cache regime meta w).redis ≡ some (j.dumps regime)
  unfolding text_eq
  get-cache regime meta w =
      get-put "regime:current" meta_key (j.dumps meta) (c.put regime_key (j.dumps regime) w.redis)
      ∙ get-put "regime:current" regime_key (j.dumps regime) w.redis

  regime_of-fields :
      (symbol timeframe cid label : String) (i : Inference F) (s0 s1 s2 : ℕ)
      → ReadsBack (regime_fields symbol timeframe cid i label s0 s1 s2)
      → regime_of F (some (j.dumps (regime_fields symbol timeframe cid i label s0 s1 s2)))
        ≡ ok (known_regime (resolve_regime label))
  unfolding text_eq
  regime_of-fields symbol timeframe cid label i s0 s1 s2 h = rw h refl

  regime_document-canonical :
      (symbol timeframe cid : String) (i : Inference F) (lowest middle highest : ℕ)
      → let order = canonical_order lowest middle highest in
        regime_document symbol timeframe cid order i
        ≡ ok (
            regime_fields symbol timeframe cid i
              (regime_label order i.best_state)
              middle
              highest
              lowest)
  unfolding regime_document text_eq
  regime_document-canonical symbol timeframe cid i lowest middle highest = refl

  handle_ok :
      (env : MlEnv F) (event : Dict String) (w : InferenceWorker R) (i : Inference F)
      (regime : Dict (JsonValue F)) (order : Dict ℕ)
      → let symbol = field_or_empty "symbol" event in
        let timeframe = field_or_empty "timeframe" event in
        any (λ t. text_eq t timeframe) inference_timeframes ≡ true
        → w.order ≡ some order
        → env.infer symbol timeframe ≡ ok (some i)
        → regime_document symbol timeframe (get_or_create_correlation_id env.fresh_id event) order i
          ≡ ok regime
        → handle env event w ≡ ok (cache regime (meta_document symbol timeframe i) w)
  unfolding handle
  handle_ok env event w i regime order ht ho hi hd =
      let symbol = field_or_empty "symbol" event in
      let timeframe = field_or_empty "timeframe" event in
      let done = cache regime (meta_document symbol timeframe i) w in
      rw (ht, ho, hi, hd, handle) (ap (λ x. ok (record done { order = x })) ho)

  -- Under the Redis laws and a total order of floats, if the models are loaded with the canonical
  -- order of their states, the event is of an inference timeframe with rows, the likeliest state
  -- is one of the three and JSON reads the regime's document back, the worker caches its results,
  -- and the signal service then handles any message without a change of its state while its Redis
  -- is the one that the worker left.
  pub handle_silent :
      (env : MlEnv F) (signal_env : SignalEnv F) (lowest middle highest : ℕ) (event : Dict String)
      (w : InferenceWorker R) (i : Inference F)
      → let symbol = field_or_empty "symbol" event in
        let timeframe = field_or_empty "timeframe" event in
        let cid = get_or_create_correlation_id env.fresh_id event in
        let order = canonical_order lowest middle highest in
        w.order ≡ some order
        → any (λ t. text_eq t timeframe) inference_timeframes ≡ true
        → env.infer symbol timeframe ≡ ok (some i)
        → (i.best_state ≡ lowest) ⊎ (i.best_state ≡ middle) ⊎ (i.best_state ≡ highest)
        → ReadsBack (
            regime_fields symbol timeframe cid i
              (regime_label order i.best_state)
              middle
              highest
              lowest)
        → (w' : InferenceWorker R) × (handle env event w ≡ ok w')
          × ((settings : SignalSettings) (decoded : Dict String) (s : SignalConsumer F R)
              → s.redis ≡ w'.redis
              → (Consumer.handle signal_env settings decoded s).0 ≡ s)
  handle_silent env signal_env lowest middle highest event w i ho ht hi hb hr =
      let symbol = field_or_empty "symbol" event in
      let timeframe = field_or_empty "timeframe" event in
      let cid = get_or_create_correlation_id env.fresh_id event in
      let label = regime_label (canonical_order lowest middle highest) i.best_state in
      let regime = regime_fields symbol timeframe cid i label middle highest lowest in
      let w' = cache regime (meta_document symbol timeframe i) w in
      let short = short_regime label (label_lem lowest middle highest i.best_state hb) in
      let read = regime_of-fields symbol timeframe cid label i middle highest lowest hr in
      (
        w',
        handle_ok env event w i regime _ ht ho hi
            (regime_document-canonical symbol timeframe cid i lowest middle highest),
        λ settings decoded s e. handle_unknown laws o signal_env settings decoded s (
            ap (λ x. regime_of F (c.get "regime:current" x)) e
            ∙ ap (regime_of F) (get-cache regime (meta_document symbol timeframe i) w)
            ∙ read
            ∙ ap (λ x. ok x) short),
      )
