-- ===== src/Tests/GatewayTests.antt =====
-- A token from its issue to a request that the gateway passes on.
use vix_75_platform.Base.{◌≡◌, refl, none, some, [], ◌∷◌, length, arith, if◌then◌else◌}
use vix_75_platform.Base.Dict.{lookup, insert, text_eq}
use vix_75_platform.Gateway.Http.{Request, HeaderLib, returns}
use vix_75_platform.Gateway.Auth.{
  AuthSettings, Claims, TokenLib, IsReadBack, TokenRequest, TokenResponse, create_token,
  compare_digest, issue_token, verify_token,
}
use vix_75_platform.Gateway.Auth.Exchange.{verify_token-issue_token}
use vix_75_platform.Gateway.Limiter.{check, record_request}
use vix_75_platform.Gateway.Proxy.{answered, forward_headers, proxy}
use vix_75_platform.Gateway.Proxy.Forwarding.{IsClean, forward_headers-IsClean}
use vix_75_platform.Gateway.App.{RequestEnv, Gateway, enforce, handle}
use vix_75_platform.Gateway.App.Guard.{Guarded, handle-Guarded}
use vix_75_platform.Tests.LimiterTests.{Members, members_sets}

instance abbrev headers : HeaderLib
headers = record { get = lookup; set = insert }

-- A library with one token, for the name that the settings hold, from 100 to 3700.
abbrev claims : Claims
claims = record { sub = some "admin"; iat = 100; exp = 3700 }

instance abbrev tokens : TokenLib
tokens = record {
  encode = λ _ _. "token";
  decode = λ _ token _. if text_eq token "token" then some claims else none;
}

abbrev settings : AuthSettings
settings = record {
  gateway_username = "admin";
  gateway_password = "secret";
  jwt_secret = "key";
  token_expire_minutes = 60;
}

abbrev body : TokenRequest
body = record { username = "admin"; password = "secret" }

abbrev response : TokenResponse
response = record { access_token = "token"; token_type = "bearer"; expires_in = 3600 }

abbrev request : Request
request = record {
  method = "GET";
  service = "risk";
  path = "health";
  query_params = [];
  headers = ("host", "edge") ∷ ("x-correlation-id", "m") ∷ ("accept", "json") ∷ [];
  credentials = some "token";
  body = "";
}

issues : issue_token settings 100 body ≡ returns response
unfolding issue_token compare_digest create_token text_eq
issues = refl

abbrev env : RequestEnv
env = record {
  now = 200;
  now_ms = 200000;
  member = "1";
  fresh_id = "c";
  client = λ _. answered 200 [] "ok";
  show = λ _. "";
}

abbrev gateway : Gateway Members
gateway = record {
  settings = settings;
  limiter = record { limit = 1; window_s = 60 };
  redis = some [];
  calls = [];
}

read_back : IsReadBack claims "key"
unfolding text_eq
read_back = record { decode-encode = λ now h k. refl; encode-IsText = refl }

verify_token-issue_token_example :
    (verify_token settings 200 request ≡ returns claims)
    × (body.username ≡ settings.gateway_username)
    × (body.password ≡ settings.gateway_password)
verify_token-issue_token_example =
    verify_token-issue_token settings 100 200 body response request read_back issues refl
      (omega arith) (omega arith)

forward_headers-IsClean_example : IsClean "m" request.headers (forward_headers "m" request.headers)
forward_headers-IsClean_example = forward_headers-IsClean "m" request.headers

one_call : length (handle env request gateway).1.calls ≡ 1
unfolding handle enforce verify_token check record_request proxy text_eq
one_call = refl

handle-Guarded_example : Guarded env request gateway (handle env request gateway).1.calls
handle-Guarded_example = handle-Guarded env request gateway
