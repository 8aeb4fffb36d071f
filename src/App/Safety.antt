-- ===== src/App/Safety.antt =====
-- internal/app/app.go: what a request can change.
use insider_one.Prelude.{
  String, ◌≡◌, refl, ◌∙◌, ◌⊎◌, inl, inr, true, some, List, [], ◌∷◌, arith, str_eq, eq_iff,
  if◌then◌else◌,
}
use insider_one.App.{App}
use insider_one.App.Handlers.{Codec, cancel_decoded, handle_cancel_one, handle_cancel_many}
use insider_one.App.Keeping.Handling.{
  is_reading, Keeps-reading, Keeps-cancelling, serve_mux-Keeps, serve-Keeps,
}
use insider_one.App.Routes.{Route, cancel_one, cancel_many, Mux, handler_of, serve_mux, serve}
use insider_one.Httpx.Context.{Context, background, tenant_id_of}
use insider_one.Httpx.Message.{Request}
use insider_one.Httpx.Middleware.{tenant_header, with_api_key_auth}
use insider_one.Httpx.Middleware.Access.{IsAdmitted, with_api_key_auth-IsAdmitted}
use insider_one.Repository.Schema.{tenant_id}
use insider_one.Repository.Write.{cancel_pending}
use insider_one.App.Keeping.{Keeps-write_error}
use insider_one.Httpx.Middleware.Metadata.{Ends-with_metadata, identified}
use insider_one.Runtime.{Env, World, ok}
use insider_one.Runtime.Ends.{Ends}
use insider_one.Runtime.From.{Unchanged, unchanged}
use insider_one.Runtime.Keeps.{Keeps}
use insider_one.Service.Cancelling.{CancelsOnly, cancels, cancel_pending-CancelsOnly}

-- What the middleware stores is what the service reads.
pub tenant_of-header :
    (ctx : Context) (r : Request)
    → ctx.tenant_id ≡ some (tenant_header r)
    → tenant_id_of ctx ≡ tenant_header r
unfolding tenant_id_of tenant_header
tenant_of-header ctx r e =
    let h : tenant_id_of ctx
        ≡ (if str_eq (tenant_header r) "" then "default" else tenant_header r) =
      rw e refl in
    h ∙ ground (arith, eq_iff (tenant_header r) "", eq_iff (r.header "X-Tenant-Id") "")

module _ (env : Env) (codec : Codec) (mux : Mux) (a : App) where
  -- A GET route changes no table, whatever the surroundings do.
  pub serve-Unchanged :
      (r : Request) (pattern : Route) (w : World)
      → mux.pattern r ≡ some pattern
      → is_reading pattern ≡ true
      → (serve env codec mux a r w).1.db ≡ w.db
  serve-Unchanged r pattern w found h =
      (serve-Keeps Unchanged unchanged env codec mux a r (λ ctx e.
          serve_mux-Keeps Unchanged unchanged env codec mux a ctx r (λ other known.
            let same : other ≡ pattern = cc in
            Keeps-reading Unchanged unchanged env codec mux a other ctx r (rw same h)))).at
        w

  -- The ids that a request asks to cancel.
  abbrev pub Names : Request → List String → Type 0
  Names r ids =
      ((mux.pattern r ≡ some cancel_one) × (ids ≡ r.path_value "id" ∷ []))
      ⊎ ((mux.pattern r ≡ some cancel_many) × (codec.decode_ids r.body ≡ ok ids))

  cancels_for :
      (ids : List String) (ctx : Context) (tenant : String)
      → tenant_id_of ctx ≡ tenant
      → Keeps (CancelsOnly ids (tenant_id tenant)) (cancel_pending env ids (tenant_id_of ctx))
  cancels_for ids ctx tenant e = rw (← e) (cancel_pending-CancelsOnly env (tenant_id_of ctx) ids)

  decoded-CancelsOnly :
      (ids : List String) (ctx : Context) (tenant : String)
      → tenant_id_of ctx ≡ tenant
      → Keeps (CancelsOnly ids (tenant_id tenant)) (cancel_decoded env codec a ctx (ok ids))
  unfolding cancel_decoded
  decoded-CancelsOnly [] ctx tenant e =
      Keeps-write_error _ (cancels [] (tenant_id tenant)) env 400 _ _ ctx
  decoded-CancelsOnly (id ∷ ids) ctx tenant e =
      Keeps-cancelling _ (cancels (id ∷ ids) (tenant_id tenant)) env codec mux a (id ∷ ids) ctx
        (cancels_for (id ∷ ids) ctx tenant e)

  handler-CancelsOnly :
      (r : Request) (ids : List String) (ctx : Context) (pattern : Route)
      → tenant_id_of ctx ≡ tenant_header r
      → Names r ids
      → mux.pattern r ≡ some pattern
      → Keeps
          (CancelsOnly ids (tenant_id (tenant_header r)))
          (handler_of env codec mux a pattern ctx r)
  unfolding handler_of handle_cancel_one handle_cancel_many
  handler-CancelsOnly r ids ctx pattern e (inl (found, named)) known =
      let same : pattern ≡ cancel_one = cc in
      rw same (
        rw named (
          Keeps-cancelling _ (cancels (r.path_value "id" ∷ []) (tenant_id (tenant_header r))) env
            codec mux a (r.path_value "id" ∷ []) ctx (cancels_for _ ctx (tenant_header r) e)))
  handler-CancelsOnly r ids ctx pattern e (inr (found, named)) known =
      let same : pattern ≡ cancel_many = cc in
      rw same (rw named (decoded-CancelsOnly ids ctx (tenant_header r) e))

  -- A request to cancel, one or many, changes nothing but rows of notifications, whatever the
  -- surroundings do; a row that it changes is named by the request, belongs to the tenant of the
  -- request's header, was pending, scheduled or processing, and is cancelled.
  pub serve-CancelsOnly :
      (r : Request) (ids : List String) (w : World)
      → Names r ids
      → CancelsOnly ids (tenant_id (tenant_header r)) w.db (serve env codec mux a r w).1.db
  serve-CancelsOnly r ids w h =
      let pre = cancels ids (tenant_id (tenant_header r)) in
      (serve-Keeps _ pre env codec mux a r (λ ctx e.
          serve_mux-Keeps _ pre env codec mux a ctx r
            (λ pattern. handler-CancelsOnly r ids ctx pattern (tenant_of-header ctx r e) h))).at
        w

  -- A request that is not admitted is answered 401, and neither a table nor a metric changes,
  -- whatever its route and the surroundings.
  pub serve-unauthorized :
      (r : Request) (w : World)
      → ¬ IsAdmitted a.config.api_keys r
      → Ends
          (λ response w'. (response.status ≡ 401) × (w'.db ≡ w.db) × (w'.metrics ≡ w.metrics))
          (serve env codec mux a r w)
  unfolding serve
  serve-unauthorized r w h =
      Ends-with_metadata env (with_api_key_auth a.config.api_keys (serve_mux env codec mux a))
        background r _ w
        (λ request_id tick given.
          rw
            ((with_api_key_auth-IsAdmitted a.config.api_keys (serve_mux env codec mux a)
                (identified env (serve_mux env codec mux a) background r request_id) r).1
              h)
            (refl, refl, refl))
