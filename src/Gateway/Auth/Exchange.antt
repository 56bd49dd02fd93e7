-- ===== src/Gateway/Auth/Exchange.antt =====
-- A token from its issue to its check, in services/api-gateway/app/auth.py.
use vix_75_platform.Base.{
  ℕ, ◌+◌, ◌*◌, ◌≤◌, ◌<◌, ◌≡◌, refl, subst, String, Bool, true, false, some, arith,
}
use vix_75_platform.Base.Dict.{text_eq_iff}
use vix_75_platform.Base.Result.{type_error}
use vix_75_platform.Gateway.Http.{Request, Outcome, returns, http_exception, crash}
use vix_75_platform.Gateway.Auth.{
  AuthSettings, Claims, TokenLib, IsReadBack, TokenRequest, TokenResponse, is_ascii, compare_digest,
  create_token, granted, issue_token, verify_token,
}

pub returns_inj {ℓ} : {A : Type ℓ} {a b : A} → returns a ≡ returns b → a ≡ b
returns_inj h = cc

module _ ⦃t : TokenLib⦄ where
  -- The claims of a token issued at `now`.
  abbrev pub issued_claims : AuthSettings → ℕ → String → Claims
  issued_claims settings now subject = record {
    sub = some subject;
    iat = now;
    exp = now + settings.token_expire_minutes * 60;
  }

  -- What a response to a token request rests on, and what it holds.
  pub record IsIssued (settings : AuthSettings) (now : ℕ) (body : TokenRequest) (r : TokenResponse)
      : Type 0 where
    pub username : body.username ≡ settings.gateway_username
    pub password : body.password ≡ settings.gateway_password
    pub access_token :
        r.access_token ≡ t.encode (issued_claims settings now body.username) settings.jwt_secret
    pub expires_in : r.expires_in ≡ settings.token_expire_minutes * 60

  compare_digest_lem : (a b : String) → compare_digest a b ≡ returns true → a ≡ b
  unfolding compare_digest
  compare_digest_lem a b h = ground (arith, text_eq_iff a b)

  granted-IsIssued :
      (settings : AuthSettings) (now : ℕ) (body : TokenRequest) (r : TokenResponse)
      (user_ok pass_ok : Outcome Bool)
      → compare_digest body.username settings.gateway_username ≡ user_ok
      → compare_digest body.password settings.gateway_password ≡ pass_ok
      → granted settings now body user_ok pass_ok ≡ returns r
      → IsIssued settings now body r
  unfolding create_token
  granted-IsIssued settings now body r (returns true) (returns true) hu hp h =
      subst (IsIssued settings now body) (returns_inj h) (record {
        username = compare_digest_lem _ _ hu;
        password = compare_digest_lem _ _ hp;
        access_token = refl;
        expires_in = refl;
      })
  granted-IsIssued settings now body r (returns true) (returns false) hu hp h = absurd (cc)
  granted-IsIssued settings now body r (returns false) (returns _) hu hp h = absurd (cc)
  granted-IsIssued settings now body r (returns _) (http_exception _ _ _) hu hp h = absurd (cc)
  granted-IsIssued settings now body r (returns _) (crash _) hu hp h = absurd (cc)
  granted-IsIssued settings now body r (http_exception _ _ _) pass_ok hu hp h = absurd (cc)
  granted-IsIssued settings now body r (crash _) pass_ok hu hp h = absurd (cc)

  issue_token-IsIssued :
      (settings : AuthSettings) (now : ℕ) (body : TokenRequest) (r : TokenResponse)
      → issue_token settings now body ≡ returns r
      → IsIssued settings now body r
  unfolding issue_token
  issue_token-IsIssued settings now body r h = granted-IsIssued settings now body r _ _ refl refl h

  -- A token that was issued for a name and a password is accepted, as credentials of a request,
  -- from its issue until it expires, with the claims that it was signed for, if the JWT library
  -- reads that token back; and the name and the password are those of the settings.
  pub verify_token-issue_token :
      (settings : AuthSettings) (now later : ℕ) (body : TokenRequest) (r : TokenResponse)
      (request : Request)
      → IsReadBack (issued_claims settings now body.username) settings.jwt_secret
      → issue_token settings now body ≡ returns r
      → request.credentials ≡ some r.access_token
      → now ≤ later
      → later < now + r.expires_in
      → (verify_token settings later request ≡ returns (issued_claims settings now body.username))
        × (body.username ≡ settings.gateway_username)
        × (body.password ≡ settings.gateway_password)
  unfolding verify_token
  verify_token-issue_token settings now later body r request read_back h hc hn hl =
      let i = issue_token-IsIssued settings now body r h in
      let full = read_back.encode-IsText in
      let read = read_back.decode-encode later hn (omega (arith, hl, i.expires_in)) in
      (rw (hc, i.access_token, full, full, read, verify_token) refl, i.username, i.password)

  -- A name outside ASCII is no wrong name: the comparison raises.
  pub issue_token_crash :
      (settings : AuthSettings) (now : ℕ) (body : TokenRequest)
      → is_ascii body.username ≡ false
      → issue_token settings now body ≡ crash type_error
  unfolding issue_token compare_digest
  issue_token_crash settings now body h = rw (h, issue_token, compare_digest) refl
