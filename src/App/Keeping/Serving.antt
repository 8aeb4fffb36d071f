-- ===== src/App/Keeping/Serving.antt =====
-- internal/app/app.go: the tables before and after a request, for what the repository respects.
use insider_one.Prelude.{refl, [], ◌∷◌}
use insider_one.App.{App}
use insider_one.App.Handlers.{
  Codec, handle_create_notification, handle_create_batch, handle_cancel_one, handle_cancel_many,
}
use insider_one.App.Keeping.Handling.{
  Keeps-reading, Keeps-cancelling, Keeps-cancel_decoded, Keeps-create_decoded, Keeps-batch_decoded,
  serve_mux-Keeps, serve-Keeps,
}
use insider_one.App.Routes.{
  Route, swagger, openapi, health, metrics, create_notification, create_batch, dead_letters,
  get_notification, notification_events, get_batch, cancel_one, cancel_many, list_notifications,
  Mux, handler_of, serve,
}
use insider_one.Httpx.Context.{Context, tenant_id_of}
use insider_one.Httpx.Message.{Request}
use insider_one.Repository.Laws.{RepositoryLaws}
use insider_one.Repository.Schema.{Database}
use insider_one.Runtime.{Env}
use insider_one.Runtime.Keeps.{Keeps}

module _ (R : Database → Database → Type 0) (env : Env) (laws : RepositoryLaws R env)
    (codec : Codec) (mux : Mux) (a : App) where
  Keeps-handler_of :
      (pattern : Route) (ctx : Context) (r : Request)
      → Keeps R (handler_of env codec mux a pattern ctx r)
  unfolding handler_of handle_create_notification handle_create_batch handle_cancel_one
      handle_cancel_many
  Keeps-handler_of swagger ctx r = Keeps-reading R laws.preorder env codec mux a swagger ctx r refl
  Keeps-handler_of openapi ctx r = Keeps-reading R laws.preorder env codec mux a openapi ctx r refl
  Keeps-handler_of health ctx r = Keeps-reading R laws.preorder env codec mux a health ctx r refl
  Keeps-handler_of metrics ctx r = Keeps-reading R laws.preorder env codec mux a metrics ctx r refl
  Keeps-handler_of create_notification ctx r = Keeps-create_decoded R env laws codec a ctx r _
  Keeps-handler_of create_batch ctx r = Keeps-batch_decoded R env laws codec a ctx r _
  Keeps-handler_of dead_letters ctx r =
      Keeps-reading R laws.preorder env codec mux a dead_letters ctx r refl
  Keeps-handler_of get_notification ctx r =
      Keeps-reading R laws.preorder env codec mux a get_notification ctx r refl
  Keeps-handler_of notification_events ctx r =
      Keeps-reading R laws.preorder env codec mux a notification_events ctx r refl
  Keeps-handler_of get_batch ctx r =
      Keeps-reading R laws.preorder env codec mux a get_batch ctx r refl
  Keeps-handler_of cancel_one ctx r =
      Keeps-cancelling R laws.preorder env codec mux a _ ctx
        (laws.cancel (r.path_value "id" ∷ []) (tenant_id_of ctx))
  Keeps-handler_of cancel_many ctx r =
      Keeps-cancel_decoded R laws.preorder env codec mux a ctx _
        (λ ids. laws.cancel ids (tenant_id_of ctx))
  Keeps-handler_of list_notifications ctx r =
      Keeps-reading R laws.preorder env codec mux a list_notifications ctx r refl

  -- What the methods of the repository respect, serving a request respects.
  pub serve-respects : (r : Request) → Keeps R (serve env codec mux a r)
  serve-respects r = serve-Keeps R laws.preorder env codec mux a r (λ ctx e.
      serve_mux-Keeps R laws.preorder env codec mux a ctx r
        (λ pattern found. Keeps-handler_of pattern ctx r))
