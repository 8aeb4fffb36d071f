-- ===== src/App/Answers.antt =====
-- internal/app/app.go: the answers of the server.
pub mod Pages
pub mod Batches
pub mod Keys
use insider_one.Prelude.{
  ℕ, String, ◌≡◌, refl, Bool, true, false, exists, ◌==◌, ◌||◌, Option, none, some, List, [], ◌∷◌,
  str_eq, if◌then◌else◌,
}
use insider_one.Prelude.Int.{ℤ}
use insider_one.Domain.{Notification, DeliveryEvent, NotificationRequest, NotificationBatchRequest}
use insider_one.App.{App}
use insider_one.App.Handlers.{
  Codec, handle_health, handle_metrics, create_decoded, handle_create_notification, batch_decoded,
  handle_create_batch, handle_list_dead_letters, handle_get_notification,
  handle_list_notification_events, handle_get_batch, handle_cancel_one, cancel_decoded,
  handle_cancel_many, handle_list_notifications,
}
use insider_one.App.Responses.{Envelope, build_response_meta, ResponseMeta}
use insider_one.App.Routes.{
  Route, swagger, openapi, health, metrics, create_notification, create_batch, dead_letters,
  get_notification, notification_events, get_batch, cancel_one, cancel_many, list_notifications,
  Mux, handler_of, serve_mux, serve, route, spec_handler,
}
use insider_one.App.Returning.{Returns-guarded, Returns-serve_mux}
use insider_one.App.Tracing.{is_code, HasIds, IsTraced, IsAnswer, IsStamped}
use insider_one.Httpx.Middleware.Metadata.{Ends-with_metadata, identified}
use insider_one.App.Writing.{
  write_json, write_error, correlation_id, corr_id, new_id, answer_notification, answer_created,
  answer_batch, answer_cancelled, answer_list, answer_events, answer_metrics,
}
use insider_one.Httpx.Context.{
  Context, with_request_id, with_correlation_id, with_tenant_id, background, request_id_of,
  correlation_id_of,
}
use insider_one.Httpx.Message.{Request, Response, encoded, Handler}
use insider_one.Httpx.Middleware.{
  is_public_route, allowed_keys, contains_key, tenant_header, is_empty, unauthorized,
  with_api_key_auth, with_request_metadata, request_id_from_clock,
}
use insider_one.Metrics.{ChannelSnapshot}
use insider_one.Runtime.{Env, Error, Result, ok, err, Fallible, pure, ◌>>=◌, World, attempt}
use insider_one.Runtime.Ends.{Ends, Ends-weaken}
use insider_one.Runtime.Returns.{
  Returns, Any, Returns-pure, Returns-if, Returns-then, Returns->>=, Returns-attempt, Returns-clock,
}
use insider_one.App.Replies.{
  identified-meta, Returns-with_meta, Returns-write_error, Returns-corr_id, Returns-new_id,
  Returns-answer_notification, Returns-answer_created, Returns-answer_batch,
  Returns-answer_cancelled, Returns-answer_list, Returns-answer_events, Returns-answer_metrics,
  attempted,
}

module _ (env : Env) (codec : Codec) (mux : Mux) (a : App) where
  Returns-create_decoded :
      (ctx : Context) (r : Request) (decoded : Result NotificationRequest)
      → Returns (IsAnswer ctx) (create_decoded env codec a ctx r decoded)
  unfolding create_decoded
  Returns-create_decoded ctx r (err e) = Returns-write_error env 400 _ e ctx refl
  Returns-create_decoded ctx r (ok req) =
      Returns->>= (IsAnswer ctx) (Returns-corr_id env ctx r) (λ corr.
        Returns->>= (IsAnswer ctx) (Returns-new_id env) (λ id.
          attempted env ctx _
            (λ result. Returns-answer_notification env 201 400 _ ctx result refl refl)))

  Returns-batch_decoded :
      (ctx : Context) (r : Request) (decoded : Result NotificationBatchRequest)
      → Returns (IsAnswer ctx) (batch_decoded env codec a ctx r decoded)
  unfolding batch_decoded
  Returns-batch_decoded ctx r (err e) = Returns-write_error env 400 _ e ctx refl
  Returns-batch_decoded ctx r (ok req) =
      Returns->>= (IsAnswer ctx) (Returns-corr_id env ctx r)
        (λ corr. attempted env ctx _ (Returns-answer_created env ctx))

  Returns-cancel_decoded :
      (ctx : Context) (decoded : Result (List String))
      → Returns (IsAnswer ctx) (cancel_decoded env codec a ctx decoded)
  unfolding cancel_decoded
  Returns-cancel_decoded ctx (err e) = Returns-write_error env 400 _ e ctx refl
  Returns-cancel_decoded ctx (ok []) = Returns-write_error env 400 _ _ ctx refl
  Returns-cancel_decoded ctx (ok (id ∷ ids)) =
      attempted env ctx _ (Returns-answer_cancelled env (id ∷ ids) ctx)

  Returns-spec_handler :
      (spec : Option String) (ctx : Context) (r : Request)
      → Returns (IsAnswer ctx) (spec_handler spec ctx r)
  unfolding spec_handler
  Returns-spec_handler none ctx r = Returns-pure (IsAnswer ctx) _ (refl, tt)
  Returns-spec_handler (some text) ctx r = Returns-pure (IsAnswer ctx) _ (refl, tt)

  Returns-handler_of :
      (pattern : Route) (ctx : Context) (r : Request)
      → Returns (IsAnswer ctx) (handler_of env codec mux a pattern ctx r)
  unfolding handler_of handle_health handle_metrics handle_create_notification handle_create_batch
      handle_list_dead_letters handle_get_notification handle_list_notification_events
      handle_get_batch handle_cancel_one handle_cancel_many handle_list_notifications
  Returns-handler_of swagger ctx r = Returns-pure (IsAnswer ctx) _ (refl, tt)
  Returns-handler_of openapi ctx r = Returns-spec_handler codec.spec ctx r
  Returns-handler_of health ctx r =
      Returns->>= (IsAnswer ctx) (Returns-clock env)
        (λ now. Returns-with_meta env ctx 200 _ (λ meta. refl) (λ meta ids. ids))
  Returns-handler_of metrics ctx r = attempted env ctx _ (Returns-answer_metrics env ctx)
  Returns-handler_of create_notification ctx r = Returns-create_decoded ctx r _
  Returns-handler_of create_batch ctx r = Returns-batch_decoded ctx r _
  Returns-handler_of dead_letters ctx r = attempted env ctx _ (Returns-answer_list env _ _ ctx)
  Returns-handler_of get_notification ctx r =
      attempted env ctx _ (λ result. Returns-answer_notification env 200 404 _ ctx result refl refl)
  Returns-handler_of notification_events ctx r =
      attempted env ctx _ (Returns-answer_events env _ _ ctx)
  Returns-handler_of get_batch ctx r = attempted env ctx _ (Returns-answer_batch env _ ctx)
  Returns-handler_of cancel_one ctx r = attempted env ctx _ (Returns-answer_cancelled env _ ctx)
  Returns-handler_of cancel_many ctx r = Returns-cancel_decoded ctx _
  Returns-handler_of list_notifications ctx r =
      attempted env ctx _ (Returns-answer_list env _ _ ctx)

  guarded-IsAnswer :
      (r : Request) (pattern : Route) (ctx : Context)
      → mux.pattern r ≡ some pattern
      → Returns
          (IsAnswer ctx)
          (with_api_key_auth a.config.api_keys (serve_mux env codec mux a) ctx r)
  unfolding with_tenant_id request_id_of correlation_id_of
  guarded-IsAnswer r pattern ctx found =
      let admitted = with_tenant_id ctx (tenant_header r) in
      Returns-guarded (IsAnswer ctx) env codec mux a r (serve_mux env codec mux a) ctx (refl, tt)
        (Returns-serve_mux (IsAnswer admitted) env codec mux a r pattern admitted found
          (Returns-handler_of pattern admitted r))

  -- Every request for which ServeMux finds a registered pattern is answered, whatever the
  -- connection, the clock and the contexts do: serving it returns a response and no error; its
  -- status is one of those for its body: 400 or 404 for an error, 401 for the refusal of a key, 200 or
  -- 201 for a notification or a batch, 200 or 500 for the specification, 200 for every other; it begins with the headers `X-Request-Id` and
  -- `X-Correlation-Id`, which are the request's own where it has them, the second else being the
  -- first; and where its body has a meta, that has the same two ids. The refusal of a key, the metrics and
  -- the pages of the documentation have no meta.
  pub serve-answers :
      (r : Request) (pattern : Route) (w : World)
      → mux.pattern r ≡ some pattern
      → Ends (λ response w'. IsStamped r response) (serve env codec mux a r w)
  unfolding serve with_request_id with_correlation_id request_id_of correlation_id_of
  serve-answers r pattern w found =
      let next = with_api_key_auth a.config.api_keys (serve_mux env codec mux a) in
      Ends-with_metadata env next background r (λ response w'. IsStamped r response) w
        (λ request_id tick given.
          let ctx = identified env next background r request_id in
          let answered = (guarded-IsAnswer r pattern ctx found).at (record w { tick = tick }) in
          Ends-weaken _ _ (next ctx r (record w { tick = tick })).0
            (next ctx r (record w { tick = tick })).1
            (λ response h. (request_id, response.headers, given, h.0, refl, h.1)) answered)
