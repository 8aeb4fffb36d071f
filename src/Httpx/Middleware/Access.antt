-- ===== src/Httpx/Middleware/Access.antt =====
-- internal/httpx/middleware.go: which requests `WithAPIKeyAuth` lets through.
use insider_one.Prelude.{
  String, ◌≡◌, refl, ◌≢◌, ◌⊎◌, inl, inr, Bool, true, ◌||◌, List, [], ◌∷◌, arith, All, exists,
  str_eq, eq_iff,
}
use insider_one.Httpx.Context.{Context, with_tenant_id}
use insider_one.Httpx.Message.{Request, Handler}
use insider_one.Httpx.Middleware.{
  is_public_route, allowed_keys, contains_key, tenant_header, is_empty, unauthorized,
  with_api_key_auth,
}
use insider_one.Runtime.{pure}

-- The element is in the list.
abbrev pub IsIn : String → List String → Type 0
IsIn key [] = ⊥
IsIn key (k ∷ ks) = (k ≡ key) ⊎ IsIn key ks

-- The routes that need no key.
abbrev pub IsPublic : Request → Type 0
IsPublic r =
    (r.method ≡ "GET") × ((r.path ≡ "/health") ⊎ (r.path ≡ "/swagger") ⊎ (r.path ≡ "/openapi.yaml"))

-- No key is configured, or the route is public, or the request carries a configured key.
abbrev pub IsAdmitted : List String → Request → Type 0
IsAdmitted keys r =
    All (λ key. key ≡ "") keys
    ⊎ IsPublic r
    ⊎ ((r.header "X-API-Key" ≢ "") × IsIn (r.header "X-API-Key") keys)

none_allowed :
    (keys : List String) → is_empty (allowed_keys keys) ≡ true → All (λ key. key ≡ "") keys
unfolding allowed_keys
none_allowed [] h = tt
none_allowed (k ∷ ks) h = ground (arith, eq_iff k "", none_allowed ks)

allowed_none :
    (keys : List String) → All (λ key. key ≡ "") keys → is_empty (allowed_keys keys) ≡ true
unfolding allowed_keys
allowed_none [] h = refl
allowed_none (k ∷ ks) h = ground (arith, eq_iff k "", allowed_none ks h.1)

IsPublic-route : (r : Request) → is_public_route r ≡ true → IsPublic r
unfolding is_public_route
IsPublic-route r h = ground (
  arith,
  eq_iff r.method "GET",
  eq_iff r.path "/health",
  eq_iff r.path "/swagger",
  eq_iff r.path "/openapi.yaml",
)

IsPublic-tested : (r : Request) → IsPublic r → is_public_route r ≡ true
unfolding is_public_route
IsPublic-tested r h = ground (
  arith,
  eq_iff r.method "GET",
  eq_iff r.path "/health",
  eq_iff r.path "/swagger",
  eq_iff r.path "/openapi.yaml",
)

exists-IsIn :
    (key : String) (keys : List String)
    → exists (λ k. str_eq k key) (allowed_keys keys) ≡ true
    → IsIn key keys
unfolding allowed_keys
exists-IsIn key [] h = absurd (ground arith)
exists-IsIn key (k ∷ ks) h = ground (arith, eq_iff k "", eq_iff k key, exists-IsIn key ks)

IsIn-exists :
    (key : String) (keys : List String)
    → key ≢ ""
    → IsIn key keys
    → exists (λ k. str_eq k key) (allowed_keys keys) ≡ true
unfolding allowed_keys
IsIn-exists key [] n h = absurd h
IsIn-exists key (k ∷ ks) n h = ground (arith, eq_iff k "", eq_iff k key, IsIn-exists key ks n)

contains-IsIn :
    (keys : List String) (r : Request)
    → contains_key (allowed_keys keys) (r.header "X-API-Key") ≡ true
    → (r.header "X-API-Key" ≢ "") × IsIn (r.header "X-API-Key") keys
unfolding contains_key
contains-IsIn keys r h =
    ground (arith, eq_iff (r.header "X-API-Key") "", exists-IsIn (r.header "X-API-Key") keys)

IsIn-contains :
    (keys : List String) (r : Request)
    → r.header "X-API-Key" ≢ ""
    → IsIn (r.header "X-API-Key") keys
    → contains_key (allowed_keys keys) (r.header "X-API-Key") ≡ true
unfolding contains_key
IsIn-contains keys r n h =
    ground (arith, eq_iff (r.header "X-API-Key") "", IsIn-exists (r.header "X-API-Key") keys n h)

-- The tests of the middleware.
abbrev admits : List String → Request → Bool
admits keys r =
    is_empty (allowed_keys keys)
    || is_public_route r
    || contains_key (allowed_keys keys) (r.header "X-API-Key")

admits-IsAdmitted : (keys : List String) (r : Request) → admits keys r ≡ true → IsAdmitted keys r
admits-IsAdmitted keys r h =
    ground (arith, none_allowed keys, IsPublic-route r, contains-IsIn keys r)

IsAdmitted-admits : (keys : List String) (r : Request) → IsAdmitted keys r → admits keys r ≡ true
IsAdmitted-admits keys r (inl h) = ground (arith, allowed_none keys h)
IsAdmitted-admits keys r (inr (inl h)) = ground (arith, IsPublic-tested r h)
IsAdmitted-admits keys r (inr (inr h)) = ground (arith, IsIn-contains keys r h.0 h.1)

module _ {B : Type 0} (keys : List String) (next : Handler B) (ctx : Context) (r : Request) where
  -- A request is let through, to the next handler and with the tenant of its header, when no key
  -- but "" is configured, or it is a GET of `/health`, `/swagger` or `/openapi.yaml`, or its
  -- `X-API-Key` is not empty and is configured; any other is answered 401 and goes no further.
  pub with_api_key_auth-IsAdmitted :
      (IsAdmitted keys r
        → with_api_key_auth keys next ctx r ≡ next (with_tenant_id ctx (tenant_header r)) r)
      × (¬ IsAdmitted keys r → with_api_key_auth keys next ctx r ≡ pure unauthorized)
  unfolding with_api_key_auth
  with_api_key_auth-IsAdmitted = (
    (λ h. ground (arith, IsAdmitted-admits keys r h)),
    (λ h. ground (arith, admits-IsAdmitted keys r)),
  )
