-- ===== src/App/Writing.antt =====
-- internal/app/app.go: the ids that the handlers make, and the envelopes and errors that they write.
use insider_one.Prelude.{ℕ, String, List, [], ◌∷◌, length, ◌==◌, str_eq, if◌then◌else◌}
use insider_one.Prelude.Int.{ℤ}
use insider_one.Prelude.Text.{decimal, ◌<>◌}
use insider_one.Domain.{Notification, DeliveryEvent}
use insider_one.Httpx.Context.{Context, correlation_id_of}
use insider_one.Httpx.Message.{Request, Response, encoded}
use insider_one.Metrics.{ChannelSnapshot}
use insider_one.Runtime.{Result, ok, err, Env, Error, Fallible, pure, ◌>>=◌, clock, unix_nano}
use insider_one.App.Responses.{
  PaginationMeta, Envelope, notification, batch, notifications, events, cancelled, error, metrics,
  metrics_error, build_response_meta,
}

abbrev json_headers : List (String × String)
json_headers = ("Content-Type", "application/json") ∷ []

-- `writeJSON`
unfoldable pub write_json : ℕ → Envelope → Fallible (Response Envelope)
write_json status payload =
    pure (record { status = status; headers = json_headers; payload = encoded payload })

module _ (env : Env) where
  -- `writeError`
  unfoldable pub write_error : ℕ → String → Error → Context → Fallible (Response Envelope)
  unfolding build_response_meta write_json
  write_error status code e ctx = do
    meta ← build_response_meta env ctx
    write_json status (error e code meta)

  -- `correlationID`
  unfoldable pub correlation_id : Request → Fallible String
  correlation_id r =
      if str_eq (r.header "X-Correlation-Id") ""
      then (do now ← clock env; pure ("corr-" <> decimal (unix_nano now)))
      else pure (r.header "X-Correlation-Id")

  -- The id of the context, or else that of the request.
  unfoldable pub corr_id : Context → Request → Fallible String
  unfolding correlation_id
  corr_id ctx r =
      if str_eq (correlation_id_of ctx) "" then correlation_id r else pure (correlation_id_of ctx)

  -- `newID`
  unfoldable pub new_id : Fallible String
  new_id = do now ← clock env; pure ("notif-" <> decimal (unix_nano now))

  -- The ends of the handlers, which write an envelope with its meta or an error.
  unfoldable pub answer_notification :
      (status failure : ℕ) → String → Context → Result Notification → Fallible (Response Envelope)
  unfolding write_error build_response_meta write_json
  answer_notification status failure code ctx (ok n) = do
    meta ← build_response_meta env ctx
    write_json status (notification n meta)
  answer_notification status failure code ctx (err e) = write_error failure code e ctx

  unfoldable pub answer_created :
      Context → Result (String × List Notification) → Fallible (Response Envelope)
  unfolding write_error build_response_meta write_json
  answer_created ctx (ok (batch_id, items)) = do
    meta ← build_response_meta env ctx
    write_json 201 (batch batch_id (length items) items meta)
  answer_created ctx (err e) = write_error 400 "validation_error" e ctx

  unfoldable pub answer_batch :
      String → Context → Result (List Notification) → Fallible (Response Envelope)
  unfolding write_error build_response_meta write_json
  answer_batch batch_id ctx (ok items) = do
    meta ← build_response_meta env ctx
    write_json 200 (batch batch_id (length items) items meta)
  answer_batch batch_id ctx (err e) = write_error 404 "not_found" e ctx

  unfoldable pub answer_cancelled : List String → Context → Result ℕ → Fallible (Response Envelope)
  unfolding write_error build_response_meta write_json
  answer_cancelled ids ctx (ok count) = do
    meta ← build_response_meta env ctx
    write_json 200 (cancelled count ids meta)
  answer_cancelled ids ctx (err e) = write_error 400 "cancel_failed" e ctx

  abbrev pub pagination : ℕ → ℤ → ℕ → PaginationMeta
  pagination limit offset returned = record {
    limit = limit;
    offset = offset;
    returned = returned;
    has_more = returned == limit;
  }

  unfoldable pub answer_list :
      ℕ → ℤ → Context → Result (List Notification) → Fallible (Response Envelope)
  unfolding write_error build_response_meta write_json
  answer_list limit offset ctx (ok items) = do
    meta ← build_response_meta env ctx
    write_json 200 (notifications items (pagination limit offset (length items)) meta)
  answer_list limit offset ctx (err e) = write_error 400 "validation_error" e ctx

  unfoldable pub answer_events :
      ℕ → ℤ → Context → Result (List DeliveryEvent) → Fallible (Response Envelope)
  unfolding write_error build_response_meta write_json
  answer_events limit offset ctx (ok items) = do
    meta ← build_response_meta env ctx
    write_json 200 (events items (pagination limit offset (length items)) meta)
  answer_events limit offset ctx (err e) = write_error 400 "validation_error" e ctx

  unfoldable pub answer_metrics : Result (List ChannelSnapshot) → Fallible (Response Envelope)
  unfolding write_json
  answer_metrics (ok snapshot) = write_json 200 (metrics snapshot)
  answer_metrics (err e) = write_json 200 (metrics_error e)
