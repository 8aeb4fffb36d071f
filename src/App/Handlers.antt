-- ===== src/App/Handlers.antt =====
-- internal/app/app.go: one handler for each route, over what encoding/json and time make of texts.
use insider_one.Prelude.{◌-◌, ◌/◌, String, Option, List, [], ◌∷◌, str_eq, if◌then◌else◌}
use insider_one.Prelude.Int.{pos}
use insider_one.Domain.{Time, millisecond, NotificationRequest, NotificationBatchRequest}
use insider_one.Httpx.Context.{Context}
use insider_one.Httpx.Message.{Request, Response, Handler}
use insider_one.Runtime.{Result, ok, err, Env, Fallible, ◌>>=◌, attempt, clock}
use insider_one.Service as Services
use insider_one.Service.{Service, metrics_snapshot}
use insider_one.Service.Create.{create_notification, create_batch}
use insider_one.App.{App}
use insider_one.App.Responses.{Envelope, health, build_response_meta}
use insider_one.App.Query.{parse_int_default, bounded_limit, parse_time_ptr}
use insider_one.App.Writing.{
  write_json, write_error, corr_id, new_id, answer_notification, answer_created, answer_batch,
  answer_cancelled, answer_list, answer_events, answer_metrics,
}

-- What the libraries make of a body and of a time, and the embedded specification.
pub record Codec : Type 0 where
  pub decode_request : String → Result NotificationRequest
  pub decode_batch : String → Result NotificationBatchRequest
  pub decode_ids : String → Result (List String)
  pub parse_time : String → Option Time
  pub spec : Option String

-- `if req.IdempotencyKey == "" { … }`
abbrev with_header_key : String → NotificationBatchRequest → NotificationBatchRequest
with_header_key key req =
    if str_eq req.idempotency_key "" then record req { idempotency_key = key } else req

module _ (env : Env) (codec : Codec) (a : App) where
  unfoldable pub handle_health : Handler Envelope
  handle_health ctx r = do
    now ← clock env
    meta ← build_response_meta env ctx
    write_json 200
        (health "ok" "insider-one-notifications" ((now - a.started_at) / millisecond) meta)

  unfoldable pub handle_metrics : Handler Envelope
  handle_metrics ctx r = attempt (metrics_snapshot env) >>= answer_metrics env

  unfoldable pub create_decoded :
      Context → Request → Result NotificationRequest → Fallible (Response Envelope)
  create_decoded ctx r (err e) = write_error env 400 "invalid_request" e ctx
  create_decoded ctx r (ok req) = do
    corr ← corr_id env ctx r
    id ← new_id env
    created ← attempt (create_notification env ctx req id corr (r.header "Idempotency-Key"))
    answer_notification env 201 400 "validation_error" ctx created

  unfoldable pub handle_create_notification : Handler Envelope
  unfolding create_decoded
  handle_create_notification ctx r = create_decoded ctx r (codec.decode_request r.body)

  unfoldable pub batch_decoded :
      Context → Request → Result NotificationBatchRequest → Fallible (Response Envelope)
  batch_decoded ctx r (err e) = write_error env 400 "invalid_request" e ctx
  batch_decoded ctx r (ok req) = do
    corr ← corr_id env ctx r
    created ← attempt (create_batch env ctx (with_header_key (r.header "Idempotency-Key") req) corr)
    answer_created env ctx created

  unfoldable pub handle_create_batch : Handler Envelope
  unfolding batch_decoded
  handle_create_batch ctx r = batch_decoded ctx r (codec.decode_batch r.body)

  unfoldable pub handle_get_notification : Handler Envelope
  handle_get_notification ctx r =
      attempt (Services.get env ctx (r.path_value "id"))
      >>= answer_notification env 200 404 "not_found" ctx

  unfoldable pub handle_list_notification_events : Handler Envelope
  handle_list_notification_events ctx r =
      let limit = bounded_limit (r.query "limit") 100 in
      let offset = parse_int_default (r.query "offset") (pos 0) in
      attempt (Services.events env ctx (r.path_value "id") limit offset)
      >>= answer_events env limit offset ctx

  unfoldable pub handle_get_batch : Handler Envelope
  handle_get_batch ctx r =
      attempt (Services.get_batch env ctx (r.path_value "id"))
      >>= answer_batch env (r.path_value "id") ctx

  unfoldable pub handle_cancel_one : Handler Envelope
  handle_cancel_one ctx r =
      attempt (Services.cancel env ctx (r.path_value "id" ∷ []))
      >>= answer_cancelled env (r.path_value "id" ∷ []) ctx

  unfoldable pub cancel_decoded : Context → Result (List String) → Fallible (Response Envelope)
  cancel_decoded ctx (err e) = write_error env 400 "invalid_request" e ctx
  cancel_decoded ctx (ok []) = write_error env 400 "validation_error" "ids array is required" ctx
  cancel_decoded ctx (ok (id ∷ ids)) =
      attempt (Services.cancel env ctx (id ∷ ids)) >>= answer_cancelled env (id ∷ ids) ctx

  unfoldable pub handle_cancel_many : Handler Envelope
  unfolding cancel_decoded
  handle_cancel_many ctx r = cancel_decoded ctx (codec.decode_ids r.body)

  unfoldable pub handle_list_notifications : Handler Envelope
  handle_list_notifications ctx r =
      let limit = bounded_limit (r.query "limit") 100 in
      let offset = parse_int_default (r.query "offset") (pos 0) in
      attempt (
        Services.list env ctx (r.query "status") (r.query "channel")
          (parse_time_ptr codec.parse_time (r.query "from"))
          (parse_time_ptr codec.parse_time (r.query "to")) limit offset)
      >>= answer_list env limit offset ctx

  unfoldable pub handle_list_dead_letters : Handler Envelope
  handle_list_dead_letters ctx r =
      let limit = bounded_limit (r.query "limit") 100 in
      let offset = parse_int_default (r.query "offset") (pos 0) in
      attempt (Services.dead_letters env ctx (r.query "channel") limit offset)
      >>= answer_list env limit offset ctx
