-- ===== src/Gateway/Proxy.antt =====
-- services/api-gateway/app/proxy.py: a request passed on to the service that its path names. The media
-- type of a response is left out.
pub mod Forwarding
use vix_75_platform.Base.{
  same_name, ℕ, ◌≡◌, String, Bool, true, false, not, Option, none, some, List, [], ◌∷◌, any, format,
  if◌then◌else◌,
}
use vix_75_platform.Base.Dict.{Dict, lookup, insert}
use vix_75_platform.Correlation.{correlation_header}
use vix_75_platform.Gateway.Http.{Request, Response, HeaderLib, or_else}

-- What the gateway asks of a service, and what comes of it.
pub record Outbound : Type 0 where
  pub method : String
  pub target : String
  pub params : Dict String
  pub content : String
  pub headers : Dict String

pub data Upstream : Type 0 where
  answered : (status_code : ℕ) (headers : Dict String) (content : String) → Upstream
  timeout unreachable : Upstream

abbrev pub service_routes : Dict String
service_routes =
    ("signals", "http://signal-service:8000")
    ∷ ("signal-service", "http://signal-service:8000")
    ∷ ("risk", "http://risk-service:8000")
    ∷ ("risk-service", "http://risk-service:8000")
    ∷ ("ml", "http://ml-service:8000")
    ∷ ("ml-service", "http://ml-service:8000")
    ∷ ("data", "http://data-service:8000")
    ∷ ("data-service", "http://data-service:8000")
    ∷ ("features", "http://feature-service:8000")
    ∷ ("feature-service", "http://feature-service:8000")
    ∷ ("execution", "http://execution-service:8000")
    ∷ ("execution-service", "http://execution-service:8000")
    ∷ ("notify", "http://notify-service:8000")
    ∷ ("notify-service", "http://notify-service:8000")
    ∷ ("viz", "http://visualization-service:8000")
    ∷ ("visualization-service", "http://visualization-service:8000")
    ∷ []

abbrev pub hop_by_hop : List String
hop_by_hop =
    "connection" ∷ "keep-alive" ∷ "proxy-authenticate" ∷ "proxy-authorization" ∷ "te" ∷ "trailers"
    ∷ "transfer-encoding" ∷ "upgrade" ∷ "host" ∷ "content-length" ∷ []

-- `k.lower() in HOP_BY_HOP`
pub is_hop : String → Bool
is_hop k = any (λ h. same_name k h) hop_by_hop

-- The dict that the comprehension builds from what `items()` yields: of a name that comes more than
-- once the last value stays, at the place of the first.
abbrev pub keep_safe : Dict String → Dict String → Dict String
keep_safe [] kept = kept
keep_safe ((k, v) ∷ headers) kept = keep_safe headers (if is_hop k then kept else insert k v kept)

abbrev pub safe_headers : Dict String → Dict String
safe_headers headers = keep_safe headers []

-- The deletion of every header of the name, in any case.
abbrev pub without_name : String → Dict String → Dict String
without_name name [] = []
without_name name ((k, v) ∷ headers) =
    if same_name k name then without_name name headers else (k, v) ∷ without_name name headers

pub forward_headers : String → Dict String → Dict String
forward_headers correlation_id headers =
    insert correlation_header correlation_id
      (without_name correlation_header (safe_headers headers))

abbrev pub json_error : ℕ → String → Dict String → Response
json_error status detail headers = record {
  status_code = status;
  headers = headers;
  content = format ("{\"detail\":\"" ∷ detail ∷ "\"}" ∷ []);
}

abbrev pub relay : String → Upstream → Response
relay correlation_id (answered status headers content) = record {
  status_code = status;
  headers = insert correlation_header correlation_id (safe_headers headers);
  content = content;
}
relay correlation_id timeout =
    json_error 504 "upstream timeout" ((correlation_header, correlation_id) ∷ [])
relay correlation_id unreachable =
    json_error 502 "upstream unavailable" ((correlation_header, correlation_id) ∷ [])

abbrev pub outbound : String → String → Request → Outbound
outbound base correlation_id request = record {
  method = request.method;
  target = format (base ∷ "/" ∷ request.path ∷ []);
  params = request.query_params;
  content = request.body;
  headers = forward_headers correlation_id request.headers;
}

module _ ⦃h : HeaderLib⦄ where
  -- The response, and the call that was made for it. `stamped` is `request.state.correlation_id`.
  unfoldable pub proxy :
      (Outbound → Upstream) → Option String → Request → Response × Option Outbound
  proxy client stamped request = elim (lookup request.service service_routes) [
    | none ↦ (json_error 404 (format ("unknown service " ∷ request.service ∷ [])) [], none)
    | some base ↦
        let correlation_id =
          or_else stamped (or_else (h.get correlation_header request.headers) "") in
        let call = outbound base correlation_id request in
        (relay correlation_id (client call), some call)
  ]
