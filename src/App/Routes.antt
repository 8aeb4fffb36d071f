-- ===== src/App/Routes.antt =====
-- internal/app/app.go, `routes`, and internal/docs/swagger.go. Which of the registered patterns
-- net/http's ServeMux picks for a request, and its own answer where none fits, are parameters.
use insider_one.Prelude.{String, Option, none, some, [], ◌∷◌}
use insider_one.App.{App}
use insider_one.App.Handlers.{
  Codec, handle_health, handle_metrics, handle_create_notification, handle_create_batch,
  handle_list_dead_letters, handle_get_notification, handle_list_notification_events,
  handle_get_batch, handle_cancel_one, handle_cancel_many, handle_list_notifications,
}
use insider_one.App.Responses.{Envelope, swagger_page, specification}
use insider_one.Httpx.Context.{background}
use insider_one.Httpx.Message.{Request, Response, encoded, Handler}
use insider_one.Httpx.Middleware.{with_api_key_auth, with_request_metadata}
use insider_one.Runtime.{Env, Fallible, pure}

-- The patterns that `routes` registers.
pub data Route : Type 0 where
  swagger openapi health metrics create_notification create_batch dead_letters get_notification
        notification_events get_batch cancel_one cancel_many list_notifications :
      Route

-- `SwaggerHandler`, whose page is a constant.
abbrev swagger_handler : Handler Envelope
swagger_handler ctx r = pure (record {
  status = 200;
  headers = ("Content-Type", "text/html; charset=utf-8") ∷ [];
  payload = encoded swagger_page;
})

-- `SpecHandler`, for what reading the embedded file gives.
unfoldable pub spec_handler : Option String → Handler Envelope
spec_handler (some text) ctx r = pure (record {
  status = 200;
  headers = ("Content-Type", "application/yaml; charset=utf-8") ∷ [];
  payload = encoded (specification text);
})
spec_handler none ctx r = pure (record {
  status = 500;
  headers =
      ("Content-Type", "text/plain; charset=utf-8") ∷ ("X-Content-Type-Options", "nosniff") ∷ [];
  payload = encoded (specification "spec unavailable\n");
})

-- net/http's part in serving.
pub record Mux : Type 0 where
  pub pattern : Request → Option Route
  pub unmatched : Request → Response Envelope

module _ (env : Env) (codec : Codec) (mux : Mux) (a : App) where
  unfoldable pub handler_of : Route → Handler Envelope
  unfolding spec_handler
  handler_of swagger = swagger_handler
  handler_of openapi = spec_handler codec.spec
  handler_of health = handle_health env codec a
  handler_of metrics = handle_metrics env codec a
  handler_of create_notification = handle_create_notification env codec a
  handler_of create_batch = handle_create_batch env codec a
  handler_of dead_letters = handle_list_dead_letters env codec a
  handler_of get_notification = handle_get_notification env codec a
  handler_of notification_events = handle_list_notification_events env codec a
  handler_of get_batch = handle_get_batch env codec a
  handler_of cancel_one = handle_cancel_one env codec a
  handler_of cancel_many = handle_cancel_many env codec a
  handler_of list_notifications = handle_list_notifications env codec a

  unfoldable pub route : Option Route → Handler Envelope
  route (some pattern) ctx r = handler_of pattern ctx r
  route none ctx r = pure (mux.unmatched r)

  unfoldable pub serve_mux : Handler Envelope
  unfolding route
  serve_mux ctx r = route (mux.pattern r) ctx r

  -- `routes`: what the server answers to a request.
  unfoldable pub serve : Request → Fallible (Response Envelope)
  serve r = with_request_metadata env (with_api_key_auth a.config.api_keys serve_mux) background r
