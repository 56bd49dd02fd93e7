-- ===== src/Gateway/Http.antt =====
-- HTTP, as far as services/api-gateway/app uses it: requests, responses, and what an endpoint ends in.
use vix_75_platform.Base.{ℕ, String, ◌≡◌, Option, none, some, if◌then◌else◌}
use vix_75_platform.Base.Dict.{Dict, text_eq}
use vix_75_platform.Base.Result.{Exception}

pub record Request : Type 0 where
  pub method : String
  pub service : String
  pub path : String
  pub query_params : Dict String
  pub headers : Dict String
  -- The credentials of a bearer header, as `HTTPBearer` reads them.
  pub credentials : Option String
  pub body : String

pub record Response : Type 0 where
  pub status_code : ℕ
  pub headers : Dict String
  pub content : String

-- The headers of Starlette, by a name in any case.
pub record HeaderLib : Type 0 where
  pub get : String → Dict String → Option String
  pub set : String → String → Dict String → Dict String

pub record HeaderLaws ⦃h : HeaderLib⦄ : Type 0 where
  pub get-set : (k v : String) (d : Dict String) → h.get k (h.set k v d) ≡ some v

-- A value, an `HTTPException`, or another exception.
pub data Outcome {ℓ} (A : Type ℓ) : Type ℓ where
  returns : A → Outcome A
  http_exception : ℕ → String → Dict String → Outcome A
  crash : Exception → Outcome A

-- `x or y`, of texts.
abbrev pub or_else : Option String → String → String
or_else none y = y
or_else (some x) y = if text_eq x "" then y else x
