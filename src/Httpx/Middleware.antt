-- ===== src/Httpx/Middleware.antt =====
-- internal/httpx/middleware.go: the two handlers around the routes. Spans, log lines and the clock
-- readings that only these use are left out; so is `statusRecorder`, which serves them.
pub mod Access
pub mod Metadata
use insider_one.Prelude.{
  ℕ, String, Bool, true, false, not, ◌&&◌, ◌||◌, List, [], ◌∷◌, keep_if, exists, str_eq,
  if◌then◌else◌,
}
use insider_one.Httpx.Context.{Context, with_request_id, with_correlation_id, with_tenant_id}
use insider_one.Httpx.Message.{Request, Response, error_map, Handler}
use insider_one.Runtime.{Env, Fallible, pure, ◌>>=◌, clock}

unfoldable pub is_public_route : Request → Bool
is_public_route r =
    str_eq r.method "GET"
    && (str_eq r.path "/health" || (str_eq r.path "/swagger" || str_eq r.path "/openapi.yaml"))

-- The set of the keys that are not empty, as a list.
unfoldable pub allowed_keys : List String → List String
allowed_keys api_keys = keep_if (λ key. not (str_eq key "")) api_keys

unfoldable pub contains_key : List String → String → Bool
contains_key allowed provided =
    if str_eq provided "" then false else exists (λ key. str_eq key provided) allowed

-- The tenant of a request, by its header.
unfoldable pub tenant_header : Request → String
tenant_header r = let t = r.header "X-Tenant-Id" in if str_eq t "" then "default" else t

abbrev pub is_empty : List String → Bool
is_empty [] = true
is_empty (k ∷ ks) = false

-- `requestIDFromClock`
unfoldable pub request_id_from_clock : Env → Fallible String
request_id_from_clock env = do
  now ← clock env
  pure (env.time_text "20060102T150405.000000000Z07:00" now)

module _ {B : Type 0} where
  abbrev pub unauthorized : Response B
  unauthorized = record {
    status = 401;
    headers = ("Content-Type", "application/json") ∷ [];
    payload = error_map "missing or invalid API key" "unauthorized";
  }

  -- `WithAPIKeyAuth`
  unfoldable pub with_api_key_auth : List String → Handler B → Handler B
  unfolding is_public_route allowed_keys contains_key tenant_header
  with_api_key_auth api_keys next ctx r =
      let allowed = allowed_keys api_keys in
      if is_empty allowed || is_public_route r
      then next (with_tenant_id ctx (tenant_header r)) r
      else if contains_key allowed (r.header "X-API-Key")
      then next (with_tenant_id ctx (tenant_header r)) r
      else pure unauthorized

  module _ (env : Env) where
    -- `WithRequestMetadata`
    unfoldable pub with_request_metadata : Handler B → Handler B
    unfolding request_id_from_clock
    with_request_metadata next ctx r = do
      request_id ←
          if str_eq (r.header "X-Request-Id") ""
          then request_id_from_clock env
          else pure (r.header "X-Request-Id")
      let correlation_id =
          if str_eq (r.header "X-Correlation-Id") ""
          then request_id
          else r.header "X-Correlation-Id"
      response ← next (with_correlation_id (with_request_id ctx request_id) correlation_id) r
      pure (record response {
        headers =
            ("X-Request-Id", request_id) ∷ ("X-Correlation-Id", correlation_id) ∷ response.headers;
      })
