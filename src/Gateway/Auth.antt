-- ===== src/Gateway/Auth.antt =====
-- services/api-gateway/app/auth.py: tokens for a name and a password, and the check of a token.
pub mod Exchange
use Prim.Native.Char.{code}
use vix_75_platform.Base.{
  ℕ, ◌+◌, ◌*◌, ◌≤◌, ◌<◌, ◌≡◌, String, Bool, true, false, ◌&&◌, Option, none, some, List, [], ◌∷◌,
  ltb, all, if◌then◌else◌,
}
use vix_75_platform.Base.Dict.{Dict, lookup, text_eq}
use vix_75_platform.Base.Result.{type_error}
use vix_75_platform.Schemas.Uuid.{chars}
use vix_75_platform.Gateway.Http.{Request, Outcome, returns, http_exception, crash, or_else}

pub record Claims : Type 0 where
  pub sub : Option String
  pub iat : ℕ
  pub exp : ℕ

-- PyJWT with HS256: `decode now token secret` is `none` where it raises a `PyJWTError`.
pub record TokenLib : Type 0 where
  pub encode : Claims → String → String
  pub decode : ℕ → String → String → Option Claims

-- The library reads the token back that it signs for some claims, from their issue until they expire.
pub record IsReadBack ⦃t : TokenLib⦄ (claims : Claims) (secret : String) : Type 0 where
  pub decode-encode :
      (now : ℕ)
      → claims.iat ≤ now
      → now < claims.exp
      → t.decode now (t.encode claims secret) secret ≡ some claims
  pub encode-IsText : text_eq (t.encode claims secret) "" ≡ false

pub record AuthSettings : Type 0 where
  pub gateway_username : String
  pub gateway_password : String
  pub jwt_secret : String
  pub token_expire_minutes : ℕ

pub record TokenRequest : Type 0 where
  pub username : String
  pub password : String

pub record TokenResponse : Type 0 where
  pub access_token : String
  pub token_type : String
  pub expires_in : ℕ

abbrev pub is_ascii : String → Bool
is_ascii s = all (λ c. ltb (code c) 128) (chars s)

-- `hmac.compare_digest` of two texts, which raises a `TypeError` on one that is not ASCII.
unfoldable pub compare_digest : String → String → Outcome Bool
compare_digest a b = if is_ascii a && is_ascii b then returns (text_eq a b) else crash type_error

abbrev pub unauthorized {ℓ} : {A : Type ℓ} → String → Outcome A
unauthorized detail = http_exception 401 detail []

module _ ⦃t : TokenLib⦄ where
  -- `now` is the clock in whole seconds.
  unfoldable pub create_token : AuthSettings → ℕ → String → String × ℕ
  create_token settings now subject =
      let expires_in = settings.token_expire_minutes * 60 in
      (
        t.encode (record { sub = some subject; iat = now; exp = now + expires_in })
            settings.jwt_secret,
        expires_in,
      )

  abbrev raw_token : Request → Option String
  raw_token request = elim request.credentials [
    | some credentials ↦ some credentials
    | none ↦ lookup "token" request.query_params
  ]

  unfoldable pub verify_token : AuthSettings → ℕ → Request → Outcome Claims
  verify_token settings now request =
      let token = or_else (raw_token request) "" in
      if text_eq token ""
      then unauthorized "missing bearer token"
      else elim (t.decode now token settings.jwt_secret) [
        | some payload ↦ returns payload
        | none ↦ unauthorized "invalid or expired token"
      ]

  -- The two comparisons are both made.
  abbrev pub granted :
      AuthSettings → ℕ → TokenRequest → Outcome Bool → Outcome Bool → Outcome TokenResponse
  granted settings now body (returns user_ok) (returns pass_ok) =
      let (token, expires_in) = create_token settings now body.username in
      if user_ok && pass_ok
      then returns (record { access_token = token; token_type = "bearer"; expires_in = expires_in })
      else unauthorized "invalid credentials"
  granted settings now body (returns user_ok) (http_exception c d h) = http_exception c d h
  granted settings now body (returns user_ok) (crash e) = crash e
  granted settings now body (http_exception c d h) pass_ok = http_exception c d h
  granted settings now body (crash e) pass_ok = crash e

  unfoldable pub issue_token : AuthSettings → ℕ → TokenRequest → Outcome TokenResponse
  issue_token settings now body =
      granted settings now body (compare_digest body.username settings.gateway_username)
        (compare_digest body.password settings.gateway_password)
