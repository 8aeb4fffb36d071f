-- ===== src/App/Returning.antt =====
-- internal/app/app.go: what serving a request returns, for a property of responses.
use insider_one.Prelude.{String, ◌≡◌, refl, ◌||◌, some, List, str_eq}
use insider_one.App.{App}
use insider_one.App.Handlers.{Codec}
use insider_one.App.Responses.{Envelope, build_response_meta}
use insider_one.App.Routes.{Route, Mux, handler_of, serve_mux, serve, route}
use insider_one.Httpx.Context.{Context, background, with_tenant_id}
use insider_one.Httpx.Message.{Request, Response, Handler}
use insider_one.Httpx.Middleware.{
  is_public_route, allowed_keys, contains_key, tenant_header, is_empty, unauthorized,
  with_api_key_auth, with_request_metadata, request_id_from_clock,
}
use insider_one.Runtime.{Env}
use insider_one.Runtime.Returns.{
  Returns, Any, Returns-pure, Returns-if, Returns-then, Returns->>=, Returns-clock,
}

pub Returns-build_response_meta :
    (env : Env) (ctx : Context) → Returns Any (build_response_meta env ctx)
unfolding build_response_meta
Returns-build_response_meta env ctx =
    Returns->>= Any (Returns-clock env) (λ now. Returns-pure Any _ tt)

module _ (P : Response Envelope → Type 0) (env : Env) (codec : Codec) (mux : Mux) (a : App)
    (r : Request) where
  pub Returns-guarded :
      (next : Handler Envelope) (ctx : Context)
      → P unauthorized
      → Returns P (next (with_tenant_id ctx (tenant_header r)) r)
      → Returns P (with_api_key_auth a.config.api_keys next ctx r)
  unfolding with_api_key_auth
  Returns-guarded next ctx refused h =
      Returns-if P (is_empty (allowed_keys a.config.api_keys) || is_public_route r) h (
        Returns-if P (contains_key (allowed_keys a.config.api_keys) (r.header "X-API-Key")) h
          (Returns-pure P unauthorized refused))

  Returns-with_metadata :
      (next : Handler Envelope) (ctx : Context)
      → ((headers : List (String × String)) (response : Response Envelope)
          → P response
          → P (record response { headers = headers }))
      → ((ctx : Context) → Returns P (next ctx r))
      → Returns P (with_request_metadata env next ctx r)
  unfolding with_request_metadata request_id_from_clock
  Returns-with_metadata next ctx stable h =
      Returns->>= P
        (Returns-if Any (str_eq (r.header "X-Request-Id") "")
          (Returns->>= Any (Returns-clock env) (λ now. Returns-pure Any _ tt))
          (Returns-pure Any _ tt))
        (λ request_id.
          Returns-then P P (h _) (λ response holds. Returns-pure P _ (stable _ response holds)))

  pub Returns-serve_mux :
      (pattern : Route) (ctx : Context)
      → mux.pattern r ≡ some pattern
      → Returns P (handler_of env codec mux a pattern ctx r)
      → Returns P (serve_mux env codec mux a ctx r)
  unfolding serve_mux route
  Returns-serve_mux pattern ctx found h = rw found h

  -- A property of the body and the status that the middleware's refusal has, and what the handler
  -- returns at a context with the request's tenant, is one of what serving returns.
  pub serve-Returns :
      (pattern : Route)
      → mux.pattern r ≡ some pattern
      → ((headers : List (String × String)) (response : Response Envelope)
          → P response
          → P (record response { headers = headers }))
      → P unauthorized
      → ((ctx : Context)
          → ctx.tenant_id ≡ some (tenant_header r)
          → Returns P (handler_of env codec mux a pattern ctx r))
      → Returns P (serve env codec mux a r)
  unfolding serve with_tenant_id
  serve-Returns pattern found stable refused h = Returns-with_metadata _ background stable (λ ctx.
      Returns-guarded _ ctx refused
        (Returns-serve_mux pattern (with_tenant_id ctx (tenant_header r)) found (h _ refl)))
