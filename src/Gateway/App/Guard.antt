-- ===== src/Gateway/App/Guard.antt =====
-- What services/api-gateway/app/main.py lets through to the services, and how every response is stamped.
use vix_75_platform.Base.{
  ◌≡◌, refl, subst, String, Bool, true, false, Option, none, some, List, [], ◌∷◌, ◌++◌,
}
use vix_75_platform.Correlation.{correlation_header}
use vix_75_platform.Gateway.Http.{
  Request, Response, HeaderLib, HeaderLaws, Outcome, returns, http_exception, crash,
}
use vix_75_platform.Gateway.Auth.{Claims, TokenLib, verify_token}
use vix_75_platform.Gateway.Auth.Exchange.{returns_inj}
use vix_75_platform.Gateway.Limiter.{SortedSets, RateDecision, check}
use vix_75_platform.Gateway.Proxy.{Outbound}
use vix_75_platform.Gateway.App.{
  RequestEnv, Gateway, subject_of, judge, enforce, logged, respond, stamp, correlation_of, handle,
}

module _ ⦃h : HeaderLib⦄ where
  stamp-get :
      (laws : HeaderLaws) (cid : String) (outcome : Outcome Response) (response : Response)
      → stamp cid outcome ≡ returns response
      → h.get correlation_header response.headers ≡ some cid
  stamp-get laws cid (returns r) response e =
      let same = returns_inj e in
      subst (λ (x : Response). h.get correlation_header x.headers ≡ some cid) same
        (laws.get-set correlation_header cid r.headers)
  stamp-get laws cid (http_exception c d g) response e = absurd (cc)
  stamp-get laws cid (crash x) response e = absurd (cc)

module _ {R : Type 0} ⦃z : SortedSets R⦄ ⦃h : HeaderLib⦄ ⦃t : TokenLib⦄ (env : RequestEnv)
    (request : Request) (s : Gateway R) where
  -- A call that a verified token and a free place in the window let through.
  pub record IsAllowed (calls : List Outbound) : Type 0 where
    pub claims : Claims
    pub call : Outbound
    pub verified : verify_token s.settings env.now request ≡ returns claims
    pub within :
        (check s.limiter (subject_of claims) env.member env.now_ms s.redis).0.allowed ≡ true
    pub called : calls ≡ s.calls ++ (call ∷ [])

  -- No call, or one that was let through.
  pub data Guarded : List Outbound → Type 0 where
    no_call : Guarded s.calls
    one_call : {calls : List Outbound} → IsAllowed calls → Guarded calls

  logged-Guarded :
      (claims : Claims) (call : Option Outbound) (s' : Gateway R)
      → verify_token s.settings env.now request ≡ returns claims
      → (check s.limiter (subject_of claims) env.member env.now_ms s.redis).0.allowed ≡ true
      → s'.calls ≡ s.calls
      → Guarded (logged call s').calls
  logged-Guarded claims none s' hv hw e = rw e no_call
  logged-Guarded claims (some call) s' hv hw e =
      one_call
        (record { claims = claims; call = call; verified = hv; within = hw; called = rw e refl })

  judged-Guarded :
      (claims : Claims) (decision : RateDecision) (allowed : Bool) (s' : Gateway R) (cid : String)
      → verify_token s.settings env.now request ≡ returns claims
      → (check s.limiter (subject_of claims) env.member env.now_ms s.redis).0 ≡ decision
      → decision.allowed ≡ allowed
      → s'.calls ≡ s.calls
      → Guarded (respond env cid request (judge env cid decision) s').1.calls
  judged-Guarded claims decision true s' cid hv hd ha e =
      rw ha (logged-Guarded claims _ s' hv (rw hd ha) e)
  judged-Guarded claims decision false s' cid hv hd ha e = rw ha (rw e no_call)

  enforced-Guarded :
      (claims : Outcome Claims) (cid : String)
      → verify_token s.settings env.now request ≡ claims
      → let (verdict, s') = enforce env cid claims s in
        Guarded (respond env cid request verdict s').1.calls
  unfolding enforce
  enforced-Guarded (returns claims) cid hv =
      let decision = (check s.limiter (subject_of claims) env.member env.now_ms s.redis).0 in
      judged-Guarded claims decision decision.allowed _ cid hv refl refl refl
  enforced-Guarded (http_exception c d g) cid hv = no_call
  enforced-Guarded (crash e) cid hv = no_call

  -- A request adds at most one call of a service to those that the gateway made, and only if its
  -- token was verified and the limiter allowed the subject of the token's claims.
  pub handle-Guarded : Guarded (handle env request s).1.calls
  unfolding handle
  handle-Guarded = enforced-Guarded (verify_token s.settings env.now request) _ refl

  -- Every response carries the id of its request.
  pub handle-correlation :
      (laws : HeaderLaws) (response : Response)
      → (handle env request s).0 ≡ returns response
      → h.get correlation_header response.headers ≡ some (correlation_of env request)
  unfolding handle
  handle-correlation laws response e = stamp-get laws _ _ response e
