-- ===== src/Gateway/App.antt =====
-- services/api-gateway/app/main.py: a request to a protected route through the middleware, the
-- dependencies and the handler of exceptions. Start and stop, the public routes and the metrics are
-- left out.
pub mod Guard
use vix_75_platform.Base.{
  ℕ, ◌≡◌, String, Bool, true, false, Option, none, some, List, [], ◌∷◌, ◌++◌, format, is_some,
  if◌then◌else◌,
}
use vix_75_platform.Base.Dict.{Dict, lookup, insert}
use vix_75_platform.Base.Int.{pos}
use vix_75_platform.Base.Result.{Exception}
use vix_75_platform.Correlation.{correlation_header}
use vix_75_platform.Gateway.Http.{
  Request, Response, HeaderLib, Outcome, returns, http_exception, crash, or_else,
}
use vix_75_platform.Gateway.Auth.{AuthSettings, Claims, TokenLib, verify_token}
use vix_75_platform.Gateway.Limiter.{SortedSets, SlidingWindowLimiter, RateDecision, check}
use vix_75_platform.Gateway.Proxy.{Outbound, Upstream, json_error, proxy}

-- What one request takes from outside: the clock, the ids it draws, and the services.
pub record RequestEnv : Type 0 where
  pub now : ℕ
  pub now_ms : ℕ
  pub member : String
  pub fresh_id : String
  pub client : Outbound → Upstream
  -- `str(n)`
  pub show : ℕ → String

pub record Gateway (R : Type 0) : Type 0 where
  pub settings : AuthSettings
  pub limiter : SlidingWindowLimiter
  pub redis : Option R
  pub calls : List Outbound

-- `claims.get("sub", "anonymous")`
abbrev pub subject_of : Claims → String
subject_of claims = elim claims.sub [ some s ↦ s | none ↦ "anonymous" ]

-- `headers.setdefault(k, v)`
abbrev pub setdefault : String → String → Dict String → Dict String
setdefault k v headers = if is_some (lookup k headers) then headers else insert k v headers

abbrev pub judge : RequestEnv → String → RateDecision → Outcome (Unit {0})
judge env correlation_id decision =
    if decision.allowed
    then returns tt
    else http_exception 429 "rate limit exceeded" (
        ("Retry-After", env.show decision.retry_after_s)
        ∷ (correlation_header, correlation_id)
        ∷ [])

module _ {R : Type 0} ⦃z : SortedSets R⦄ where
  -- The dependency `enforce`, once the token is verified.
  unfoldable pub enforce :
      RequestEnv → String → Outcome Claims → Gateway R → Outcome (Unit {0}) × Gateway R
  enforce env correlation_id (http_exception c d h) s = (http_exception c d h, s)
  enforce env correlation_id (crash e) s = (crash e, s)
  enforce env correlation_id (returns claims) s =
      let (decision, redis) = check s.limiter (subject_of claims) env.member env.now_ms s.redis in
      (judge env correlation_id decision, record s { redis = redis })

module _ ⦃h : HeaderLib⦄ where
  abbrev pub correlation_of : RequestEnv → Request → String
  correlation_of env request = or_else (h.get correlation_header request.headers) env.fresh_id

  -- The middleware on the way back.
  abbrev pub stamp : String → Outcome Response → Outcome Response
  stamp correlation_id (returns response) =
      returns
        (record response { headers = h.set correlation_header correlation_id response.headers })
  stamp correlation_id other = other

module _ {R : Type 0} ⦃h : HeaderLib⦄ where
  abbrev pub logged : Option Outbound → Gateway R → Gateway R
  logged none s = s
  logged (some call) s = record s { calls = s.calls ++ (call ∷ []) }

  -- The endpoint, or the handler of exceptions; any other exception leaves no response here.
  abbrev pub respond :
      RequestEnv → String → Request → Outcome (Unit {0}) → Gateway R → Outcome Response × Gateway R
  respond env correlation_id request (returns _) s =
      let (response, call) = proxy env.client (some correlation_id) request in
      (returns response, logged call s)
  respond env correlation_id request (http_exception status detail headers) s =
      (returns (json_error status detail (setdefault correlation_header correlation_id headers)), s)
  respond env correlation_id request (crash e) s = (crash e, s)

module _ {R : Type 0} ⦃z : SortedSets R⦄ ⦃h : HeaderLib⦄ ⦃t : TokenLib⦄ where
  unfoldable pub handle : RequestEnv → Request → Gateway R → Outcome Response × Gateway R
  handle env request s =
      let correlation_id = correlation_of env request in
      let claims = verify_token s.settings env.now request in
      let (verdict, s1) = enforce env correlation_id claims s in
      let (response, s2) = respond env correlation_id request verdict s1 in
      (stamp correlation_id response, s2)

  unfoldable pub handle_all :
      List (RequestEnv × Request) → Gateway R → List (Outcome Response) × Gateway R
  handle_all [] s = ([], s)
  handle_all ((env, request) ∷ requests) s =
      let (response, s1) = handle env request s in
      let (responses, s2) = handle_all requests s1 in (response ∷ responses, s2)
