-- ===== src/App/Keeping/Handling.antt =====
-- internal/app/app.go: the tables before and after each handler, for a relation between them.
use insider_one.Prelude.{
  String, ◌≡◌, refl, arith, ◌||◌, inl, inr, Option-cases, Bool, true, false, Option, none, some,
  List, [], ◌∷◌, str_eq,
}
use insider_one.Domain.{NotificationRequest, NotificationBatchRequest}
use insider_one.App.{App}
use insider_one.App.Handlers.{
  Codec, handle_health, handle_metrics, create_decoded, batch_decoded, handle_list_dead_letters,
  handle_get_notification, handle_list_notification_events, handle_get_batch, cancel_decoded,
  handle_list_notifications,
}
use insider_one.App.Responses.{Envelope}
use insider_one.App.Routes.{
  Route, swagger, openapi, health, metrics, create_notification, create_batch, dead_letters,
  get_notification, notification_events, get_batch, cancel_one, cancel_many, list_notifications,
  Mux, handler_of, serve_mux, serve, route, spec_handler,
}
use insider_one.App.Writing.{new_id, answer_cancelled}
use insider_one.Httpx.Context.{Context, background, with_tenant_id, tenant_id_of}
use insider_one.Httpx.Message.{Request, Handler}
use insider_one.Httpx.Middleware.{
  is_public_route, allowed_keys, contains_key, tenant_header, is_empty, unauthorized,
  with_api_key_auth, with_request_metadata, request_id_from_clock,
}
use insider_one.Repository.Laws.{RepositoryLaws}
use insider_one.Repository.Schema.{Database}
use insider_one.Repository.Write.{cancel_pending}
use insider_one.Runtime.{Env, Result, ok, err, ◌>>=◌, attempt}
use insider_one.Runtime.Keeps.{IsPreorder, Keeps, Keeps-pure, Keeps->>=, Keeps-if, Keeps-clock}
use insider_one.Service as Services
use insider_one.Service.Create.Respects.{create_notification-Keeps, create_batch-Keeps}
use insider_one.Service.Reads.{
  metrics_snapshot-Keeps, cancel-Keeps, get-Keeps, get_batch-Keeps, list-Keeps, dead_letters-Keeps,
  events-Keeps,
}
use insider_one.App.Keeping.{
  Keeps-with_meta, Keeps-write_error, Keeps-corr_id, Keeps-answer_notification,
  Keeps-answer_created, Keeps-answer_batch, Keeps-answer_cancelled, Keeps-answer_list,
  Keeps-answer_events, Keeps-answer_metrics, attempted,
}

-- The routes whose handlers only read.
abbrev pub is_reading : Route → Bool
is_reading create_notification = false
is_reading create_batch = false
is_reading cancel_one = false
is_reading cancel_many = false
is_reading _ = true

module _ (R : Database → Database → Type 0) (pre : IsPreorder R) (env : Env) (codec : Codec)
    (mux : Mux) (a : App) where
  Keeps-spec_handler :
      (spec : Option String) (ctx : Context) (r : Request) → Keeps R (spec_handler spec ctx r)
  unfolding spec_handler
  Keeps-spec_handler none ctx r = Keeps-pure R pre _
  Keeps-spec_handler (some text) ctx r = Keeps-pure R pre _

  pub Keeps-reading :
      (pattern : Route) (ctx : Context) (r : Request)
      → is_reading pattern ≡ true
      → Keeps R (handler_of env codec mux a pattern ctx r)
  unfolding handler_of handle_health handle_metrics handle_list_dead_letters handle_get_notification
      handle_list_notification_events handle_get_batch handle_list_notifications
  Keeps-reading swagger ctx r h = Keeps-pure R pre _
  Keeps-reading openapi ctx r h = Keeps-spec_handler codec.spec ctx r
  Keeps-reading health ctx r h =
      Keeps->>= R pre (Keeps-clock R pre env) (λ now. Keeps-with_meta R pre env ctx 200 _)
  Keeps-reading metrics ctx r h =
      attempted R pre env _ (metrics_snapshot-Keeps R pre env) (Keeps-answer_metrics R pre env)
  Keeps-reading create_notification ctx r h = absurd (ground arith)
  Keeps-reading create_batch ctx r h = absurd (ground arith)
  Keeps-reading dead_letters ctx r h =
      attempted R pre env _ (dead_letters-Keeps R pre env ctx _ _ _)
        (Keeps-answer_list R pre env _ _ ctx)
  Keeps-reading get_notification ctx r h =
      attempted R pre env _ (get-Keeps R pre env ctx _)
        (Keeps-answer_notification R pre env 200 404 _ ctx)
  Keeps-reading notification_events ctx r h =
      attempted R pre env _ (events-Keeps R pre env ctx _ _ _)
        (Keeps-answer_events R pre env _ _ ctx)
  Keeps-reading get_batch ctx r h =
      attempted R pre env _ (get_batch-Keeps R pre env ctx _) (Keeps-answer_batch R pre env _ ctx)
  Keeps-reading cancel_one ctx r h = absurd (ground arith)
  Keeps-reading cancel_many ctx r h = absurd (ground arith)
  Keeps-reading list_notifications ctx r h =
      attempted R pre env _ (list-Keeps R pre env ctx _ _ _ _ _ _)
        (Keeps-answer_list R pre env _ _ ctx)

  pub Keeps-cancelling :
      (ids : List String) (ctx : Context)
      → Keeps R (cancel_pending env ids (tenant_id_of ctx))
      → Keeps R (attempt (Services.cancel env ctx ids) >>= answer_cancelled env ids ctx)
  Keeps-cancelling ids ctx h =
      attempted R pre env _ (cancel-Keeps R pre env ctx ids h)
        (Keeps-answer_cancelled R pre env ids ctx)

  pub Keeps-cancel_decoded :
      (ctx : Context) (decoded : Result (List String))
      → ((ids : List String) → Keeps R (cancel_pending env ids (tenant_id_of ctx)))
      → Keeps R (cancel_decoded env codec a ctx decoded)
  unfolding cancel_decoded
  Keeps-cancel_decoded ctx (err e) h = Keeps-write_error R pre env 400 _ e ctx
  Keeps-cancel_decoded ctx (ok []) h = Keeps-write_error R pre env 400 _ _ ctx
  Keeps-cancel_decoded ctx (ok (id ∷ ids)) h = Keeps-cancelling (id ∷ ids) ctx (h (id ∷ ids))

  pub Keeps-guarded :
      (next : Handler Envelope) (r : Request)
      → ((ctx : Context) → ctx.tenant_id ≡ some (tenant_header r) → Keeps R (next ctx r))
      → (ctx : Context) → Keeps R (with_api_key_auth a.config.api_keys next ctx r)
  unfolding with_api_key_auth with_tenant_id
  Keeps-guarded next r h ctx =
      let admitted = with_tenant_id ctx (tenant_header r) in
      Keeps-if R pre (is_empty (allowed_keys a.config.api_keys) || is_public_route r)
        (h admitted refl)
        (Keeps-if R pre (contains_key (allowed_keys a.config.api_keys) (r.header "X-API-Key"))
          (h admitted refl) (Keeps-pure R pre unauthorized))

  Keeps-with_metadata :
      (next : Handler Envelope) (ctx : Context) (r : Request)
      → ((ctx : Context) → Keeps R (next ctx r))
      → Keeps R (with_request_metadata env next ctx r)
  unfolding with_request_metadata request_id_from_clock
  Keeps-with_metadata next ctx r h =
      Keeps->>= R pre
        (Keeps-if R pre (str_eq (r.header "X-Request-Id") "")
          (Keeps->>= R pre (Keeps-clock R pre env) (λ now. Keeps-pure R pre _))
          (Keeps-pure R pre _))
        (λ request_id. Keeps->>= R pre (h _) (λ response. Keeps-pure R pre _))

  -- Serving respects what the routes' handlers respect at a context with the request's tenant.
  pub serve-Keeps :
      (r : Request)
      → ((ctx : Context)
          → ctx.tenant_id ≡ some (tenant_header r)
          → Keeps R (serve_mux env codec mux a ctx r))
      → Keeps R (serve env codec mux a r)
  unfolding serve
  serve-Keeps r h = Keeps-with_metadata _ background r (Keeps-guarded _ r h)

  -- The handler of the pattern found, or ServeMux's own answer.
  pub serve_mux-Keeps :
      (ctx : Context) (r : Request)
      → ((pattern : Route)
          → mux.pattern r ≡ some pattern
          → Keeps R (handler_of env codec mux a pattern ctx r))
      → Keeps R (serve_mux env codec mux a ctx r)
  unfolding serve_mux route
  serve_mux-Keeps ctx r h = elim (Option-cases (mux.pattern r)) [
    | inl e ↦ rw e (Keeps-pure R pre (mux.unmatched r))
    | inr (pattern, e) ↦ rw e (h pattern e)
  ]

module _ (R : Database → Database → Type 0) (env : Env) (laws : RepositoryLaws R env)
    (codec : Codec) (a : App) where
  pub Keeps-create_decoded :
      (ctx : Context) (r : Request) (decoded : Result NotificationRequest)
      → Keeps R (create_decoded env codec a ctx r decoded)
  unfolding create_decoded new_id
  Keeps-create_decoded ctx r (err e) = Keeps-write_error R laws.preorder env 400 _ e ctx
  Keeps-create_decoded ctx r (ok req) =
      Keeps->>= R laws.preorder (Keeps-corr_id R laws.preorder env ctx r) (λ corr.
        Keeps->>= R laws.preorder
          (Keeps->>= R laws.preorder (Keeps-clock R laws.preorder env)
            (λ now. Keeps-pure R laws.preorder _))
          (λ id.
            attempted R laws.preorder env _ (create_notification-Keeps R env laws ctx req id corr _)
              (Keeps-answer_notification R laws.preorder env 201 400 _ ctx)))

  pub Keeps-batch_decoded :
      (ctx : Context) (r : Request) (decoded : Result NotificationBatchRequest)
      → Keeps R (batch_decoded env codec a ctx r decoded)
  unfolding batch_decoded
  Keeps-batch_decoded ctx r (err e) = Keeps-write_error R laws.preorder env 400 _ e ctx
  Keeps-batch_decoded ctx r (ok req) =
      Keeps->>= R laws.preorder (Keeps-corr_id R laws.preorder env ctx r) (λ corr.
        attempted R laws.preorder env _ (create_batch-Keeps R env laws ctx _ corr)
          (Keeps-answer_created R laws.preorder env ctx))
