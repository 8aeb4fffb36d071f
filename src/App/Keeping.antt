-- ===== src/App/Keeping.antt =====
-- internal/app/app.go: the tables before and after an answer is written, for a relation between them.
pub mod Handling
pub mod Serving
pub mod Served
use insider_one.Prelude.{
  ℕ, String, ◌≡◌, Bool, true, false, Option, none, some, List, [], ◌∷◌, length, str_eq,
}
use insider_one.Prelude.Int.{ℤ}
use insider_one.Domain.{Notification, DeliveryEvent, NotificationRequest, NotificationBatchRequest}
use insider_one.App.{App}
use insider_one.App.Handlers.{
  Codec, handle_health, handle_metrics, create_decoded, handle_create_notification, batch_decoded,
  handle_create_batch, handle_list_dead_letters, handle_get_notification,
  handle_list_notification_events, handle_get_batch, handle_cancel_one, cancel_decoded,
  handle_cancel_many, handle_list_notifications,
}
use insider_one.App.Responses.{Envelope, build_response_meta, ResponseMeta}
use insider_one.App.Routes.{
  Route, swagger, openapi, health, metrics, create_notification, create_batch, dead_letters,
  get_notification, notification_events, get_batch, cancel_one, cancel_many, list_notifications,
  Mux, handler_of, serve_mux, serve, route, spec_handler,
}
use insider_one.App.Writing.{
  write_json, write_error, correlation_id, corr_id, new_id, answer_notification, answer_created,
  answer_batch, answer_cancelled, answer_list, answer_events, answer_metrics,
}
use insider_one.Httpx.Context.{Context, background, with_tenant_id, correlation_id_of, tenant_id_of}
use insider_one.Httpx.Message.{Request, Response, Handler}
use insider_one.Httpx.Middleware.{
  is_public_route, allowed_keys, contains_key, tenant_header, is_empty, unauthorized,
  with_api_key_auth, with_request_metadata, request_id_from_clock,
}
use insider_one.Metrics.{ChannelSnapshot}
use insider_one.Repository.Laws.{RepositoryLaws}
use insider_one.Repository.Schema.{Database}
use insider_one.Repository.Write.{cancel_pending}
use insider_one.Runtime.{Env, Error, Result, ok, err, Fallible, ◌>>=◌, attempt}
use insider_one.Runtime.Keeps.{
  IsPreorder, Keeps, Keeps-pure, Keeps->>=, Keeps-if, Keeps-attempt, Keeps-clock,
}
use insider_one.Service.Create.Respects.{create_notification-Keeps, create_batch-Keeps}
use insider_one.Service.Reads.{
  metrics_snapshot-Keeps, cancel-Keeps, get-Keeps, get_batch-Keeps, list-Keeps, dead_letters-Keeps,
  events-Keeps,
}

module _ (R : Database → Database → Type 0) (pre : IsPreorder R) (env : Env) where
  pub Keeps-with_meta :
      (ctx : Context) (status : ℕ) (envelope : ResponseMeta → Envelope)
      → Keeps R (build_response_meta env ctx >>= (λ meta. write_json status (envelope meta)))
  unfolding build_response_meta write_json
  Keeps-with_meta ctx status envelope =
      Keeps->>= R pre (Keeps->>= R pre (Keeps-clock R pre env) (λ now. Keeps-pure R pre _))
        (λ meta. Keeps-pure R pre _)

  pub Keeps-write_error :
      (status : ℕ) (code : String) (e : Error) (ctx : Context)
      → Keeps R (write_error env status code e ctx)
  unfolding write_error
  Keeps-write_error status code e ctx = Keeps-with_meta ctx status _

  pub Keeps-corr_id : (ctx : Context) (r : Request) → Keeps R (corr_id env ctx r)
  unfolding corr_id correlation_id
  Keeps-corr_id ctx r =
      Keeps-if R pre (str_eq (correlation_id_of ctx) "")
        (Keeps-if R pre (str_eq (r.header "X-Correlation-Id") "")
          (Keeps->>= R pre (Keeps-clock R pre env) (λ now. Keeps-pure R pre _))
          (Keeps-pure R pre _))
        (Keeps-pure R pre _)

  pub Keeps-answer_notification :
      (status failure : ℕ) (code : String) (ctx : Context) (result : Result Notification)
      → Keeps R (answer_notification env status failure code ctx result)
  unfolding answer_notification
  Keeps-answer_notification status failure code ctx (ok n) = Keeps-with_meta ctx status _
  Keeps-answer_notification status failure code ctx (err e) = Keeps-write_error failure code e ctx

  pub Keeps-answer_created :
      (ctx : Context) (result : Result (String × List Notification))
      → Keeps R (answer_created env ctx result)
  unfolding answer_created
  Keeps-answer_created ctx (ok (batch_id, items)) = Keeps-with_meta ctx 201 _
  Keeps-answer_created ctx (err e) = Keeps-write_error 400 _ e ctx

  pub Keeps-answer_batch :
      (batch_id : String) (ctx : Context) (result : Result (List Notification))
      → Keeps R (answer_batch env batch_id ctx result)
  unfolding answer_batch
  Keeps-answer_batch batch_id ctx (ok items) = Keeps-with_meta ctx 200 _
  Keeps-answer_batch batch_id ctx (err e) = Keeps-write_error 404 _ e ctx

  pub Keeps-answer_cancelled :
      (ids : List String) (ctx : Context) (result : Result ℕ)
      → Keeps R (answer_cancelled env ids ctx result)
  unfolding answer_cancelled
  Keeps-answer_cancelled ids ctx (ok count) = Keeps-with_meta ctx 200 _
  Keeps-answer_cancelled ids ctx (err e) = Keeps-write_error 400 _ e ctx

  pub Keeps-answer_list :
      (limit : ℕ) (offset : ℤ) (ctx : Context) (result : Result (List Notification))
      → Keeps R (answer_list env limit offset ctx result)
  unfolding answer_list
  Keeps-answer_list limit offset ctx (ok items) = Keeps-with_meta ctx 200 _
  Keeps-answer_list limit offset ctx (err e) = Keeps-write_error 400 _ e ctx

  pub Keeps-answer_events :
      (limit : ℕ) (offset : ℤ) (ctx : Context) (result : Result (List DeliveryEvent))
      → Keeps R (answer_events env limit offset ctx result)
  unfolding answer_events
  Keeps-answer_events limit offset ctx (ok items) = Keeps-with_meta ctx 200 _
  Keeps-answer_events limit offset ctx (err e) = Keeps-write_error 400 _ e ctx

  pub Keeps-answer_metrics :
      (result : Result (List ChannelSnapshot)) → Keeps R (answer_metrics env result)
  unfolding answer_metrics write_json
  Keeps-answer_metrics (ok snapshot) = Keeps-pure R pre _
  Keeps-answer_metrics (err e) = Keeps-pure R pre _

  pub attempted :
      {A : Type 0} {f : Result A → Fallible (Response Envelope)} (m : Fallible A)
      → Keeps R m
      → ((result : Result A) → Keeps R (f result))
      → Keeps R (attempt m >>= f)
  attempted m h k = Keeps->>= R pre (Keeps-attempt R pre h) k
