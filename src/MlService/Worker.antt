-- ===== src/MlService/Worker.antt =====
-- services/ml-service/app/worker.py: the regime and the win probability that are cached for the signal
-- service, with _canonical_order of hmm.py. What the models and their queries compute is an argument.
pub mod Regime
use vix_75_platform.Base.{
  ℕ, ◌+◌, String, Bool, true, false, Option, none, some, List, [], ◌∷◌, ◌==◌, any, if◌then◌else◌,
}
use vix_75_platform.Base.Dict.{Dict, text_eq}
use vix_75_platform.Base.Int.{pos}
use vix_75_platform.Base.Result.{Result, ok, raise, ◌>>=◌}
use vix_75_platform.Correlation.{get_or_create_correlation_id}
use vix_75_platform.Float.{Float}
use vix_75_platform.Json.{JsonLib, JsonValue, num, text, nums, get_item}
use vix_75_platform.Redis.{Redis}
use vix_75_platform.SignalService.Consumer.{field_or_empty}

abbrev pub regime_key : String
regime_key = "regime:current"

abbrev pub meta_key : String
meta_key = "meta_label:current"

abbrev pub inference_timeframes : List String
inference_timeframes = "M15" ∷ "H1" ∷ []

-- `_canonical_order`, from the states by ascending mean return.
abbrev pub canonical_order : ℕ → ℕ → ℕ → Dict ℕ
canonical_order lowest middle highest = ("S2", lowest) ∷ ("S0", middle) ∷ ("S1", highest) ∷ []

-- What is inferred from the newest rows: the time of the last, the posterior by state and the state of
-- its maximum, and the probabilities of the meta model.
pub record Inference (F : Type 0) : Type 0 where
  pub ts_iso : String
  pub posterior : ℕ → F
  pub best_state : ℕ
  pub p_up : F
  pub p_down : F

-- A fresh id, and the inference for a symbol and a timeframe: `ok none` where no rows are there.
pub record MlEnv (F : Type 0) : Type 0 where
  pub fresh_id : String
  pub infer : String → String → Result (Option (Inference F))

-- The order of the regime's states is there once both models are loaded.
pub record InferenceWorker (R : Type 0) : Type 0 where
  pub redis : R
  pub order : Option (Dict ℕ)
  pub processed : ℕ

-- `{sid: lbl for lbl, sid in order.items()}.get(state)`: of two labels the later one stays.
abbrev pub label_by_state : Dict ℕ → ℕ → Option String → Option String
label_by_state [] state found = found
label_by_state ((label, sid) ∷ order) state found =
    label_by_state order state (if sid == state then some label else found)

abbrev pub regime_label : Dict ℕ → ℕ → String
regime_label order state = elim (label_by_state order state none) [
  | some label ↦ label
  | none ↦ "S0_range"
]

module _ {F : Type 0} ⦃d : Float F⦄ where
  abbrev pub regime_fields :
      (symbol timeframe cid : String) → Inference F → String → (s0 s1 s2 : ℕ) → Dict (JsonValue F)
  regime_fields symbol timeframe cid i label s0 s1 s2 =
      ("symbol", text symbol)
      ∷ ("timeframe", text timeframe)
      ∷ ("ts", text i.ts_iso)
      ∷ ("regime", text label)
      ∷ ("state", num (d.of_int (pos i.best_state)))
      ∷ ("probabilities", nums (i.posterior s0 ∷ i.posterior s1 ∷ i.posterior s2 ∷ []))
      ∷ ("correlation_id", text cid)
      ∷ []

  pub regime_document :
      (symbol timeframe cid : String) → Dict ℕ → Inference F → Result (Dict (JsonValue F))
  regime_document symbol timeframe cid order i = do
    s0 ← get_item order "S0"
    s1 ← get_item order "S1"
    s2 ← get_item order "S2"
    ok (regime_fields symbol timeframe cid i (regime_label order i.best_state) s0 s1 s2)

module _ {F : Type 0} where
  abbrev pub meta_document : (symbol timeframe : String) → Inference F → Dict (JsonValue F)
  meta_document symbol timeframe i =
      ("symbol", text symbol)
      ∷ ("timeframe", text timeframe)
      ∷ ("p_up", num i.p_up)
      ∷ ("p_down", num i.p_down)
      ∷ []

module _ {F R : Type 0} ⦃d : Float F⦄ ⦃j : JsonLib F⦄ ⦃c : Redis R⦄ where
  abbrev pub cache : Dict (JsonValue F) → Dict (JsonValue F) → InferenceWorker R → InferenceWorker R
  cache regime meta s = record s {
    redis = c.put meta_key (j.dumps meta) (c.put regime_key (j.dumps regime) s.redis);
    processed = s.processed + 1;
  }

  abbrev pub cached :
      (symbol timeframe cid : String)
      → Dict ℕ
      → Result (Option (Inference F))
      → InferenceWorker R
      → Result (InferenceWorker R)
  cached symbol timeframe cid order (raise e) s = raise e
  cached symbol timeframe cid order (ok none) s = ok s
  cached symbol timeframe cid order (ok (some i)) s =
      regime_document symbol timeframe cid order i >>= λ regime.
      ok (cache regime (meta_document symbol timeframe i) s)

  unfoldable pub handle : MlEnv F → Dict String → InferenceWorker R → Result (InferenceWorker R)
  handle env decoded s =
      let cid = get_or_create_correlation_id env.fresh_id decoded in
      let symbol = field_or_empty "symbol" decoded in
      let timeframe = field_or_empty "timeframe" decoded in
      if any (λ t. text_eq t timeframe) inference_timeframes
      then elim s.order [
        | none ↦ ok s
        | some order ↦ cached symbol timeframe cid order (env.infer symbol timeframe) s
      ]
      else ok s
