-- ===== src/Service/Create.antt =====
-- internal/service/service.go: `CreateNotification`, `CreateBatch` and `recordEvent`.
pub mod Respects
pub mod Idempotent
use insider_one.Prelude.{
  ℕ, String, Bool, not, ◌&&◌, Option, none, some, List, [], ◌∷◌, length, ltb, ◌==◌, str_eq,
  if◌then◌else◌,
}
use insider_one.Prelude.Text.{to_lower, contains}
use insider_one.Domain.{
  Time, Status, pending, scheduled, Notification, NotificationRequest, NotificationBatchRequest,
}
use insider_one.Httpx.Context.{Context, tenant_id_of}
use insider_one.Repository.Read.{get_by_idempotency_key, get_batch_id_by_key, get_by_batch}
use insider_one.Repository.Write.{insert_notifications, record_event, upsert_request_mapping}
use insider_one.Service.Rules.{validate_request, normalize_priority, new_id}
use insider_one.Runtime.{
  Result, ok, err, Env, Error, Fallible, pure, raise, ◌>>=◌, attempt, ignore, lift, clock,
  check_ctx,
}

-- `pending`, or `scheduled` where the request names a time to come.
unfoldable pub initial_status : Option Time → Time → Status
initial_status none now = pending
initial_status (some t) now = if ltb now t then scheduled else pending

-- The value that both operations insert.
unfoldable pub build_notification :
    String → String → String → String → String → Time → NotificationRequest → Notification
unfolding initial_status
build_notification id tenant batch_id correlation_id idempotency_key now req = record {
  id = id;
  tenant_id = tenant;
  batch_id = batch_id;
  recipient = req.recipient;
  channel = req.channel;
  content = req.content;
  priority = normalize_priority req.priority;
  status = initial_status req.scheduled_at now;
  attempts = 0;
  max_attempts = 3;
  scheduled_at = req.scheduled_at;
  created_at = now;
  updated_at = now;
  correlation_id = correlation_id;
  idempotency_key = idempotency_key;
  provider_message_id = "";
  last_error = "";
}

-- What the code takes for a violated unique index.
unfoldable pub says_unique_failed : Error → Bool
says_unique_failed e = contains (to_lower e) "unique constraint failed"

module _ (env : Env) where
  -- `recordEvent`, whose own error is dropped.
  unfoldable pub note_event :
      Notification → Status → String → ℕ → Option Time → ℕ → String → Fallible (Unit {0})
  note_event n status reason attempts next_attempt_at provider_status message_id = do
    now ← clock env
    ignore (
        record_event env (record {
          id = 0;
          tenant_id = n.tenant_id;
          notification_id = n.id;
          batch_id = n.batch_id;
          channel = n.channel;
          status = status;
          attempt = attempts;
          reason = reason;
          next_attempt_at = next_attempt_at;
          provider_status = provider_status;
          provider_message_id = message_id;
          created_at = now;
        }))

  unfoldable pub note_accepted : Notification → Fallible (Unit {0})
  note_accepted n = note_event n n.status "accepted" 0 none 0 ""

module _ (env : Env) (ctx : Context) where
  -- The branches after the INSERT of one notification.
  after_insert_error : String → Error → Result Notification → Fallible Notification
  after_insert_error key e (ok existing) = pure existing
  after_insert_error key e (err _) = raise e

  unfoldable pub after_insert :
      String → String → Notification → Result (Unit {0}) → Fallible Notification
  unfolding after_insert_error note_accepted
  after_insert key batch_id n (err e) =
      if not (str_eq key "") && says_unique_failed e
      then (attempt (get_by_idempotency_key env key (tenant_id_of ctx))
          >>= after_insert_error key e)
      else raise e
  after_insert key batch_id n (ok _) = do
    mapped ←
        if str_eq key ""
        then pure tt
        else ignore (upsert_request_mapping env key batch_id (tenant_id_of ctx))
    noted ← note_accepted env n
    pure n

  -- From the clock reading on: a request that has not been seen.
  unfoldable pub create_new : NotificationRequest → String → String → String → Fallible Notification
  unfolding after_insert
  create_new req batch_id correlation_id key = do
    now ← clock env
    id ← new_id env
    let n = build_notification id (tenant_id_of ctx) batch_id correlation_id key now req
    inserted ← attempt (insert_notifications env (n ∷ []))
    after_insert key batch_id n inserted

  existing_or_new :
      NotificationRequest → String → String → String → Result Notification → Fallible Notification
  unfolding create_new
  existing_or_new req batch_id correlation_id key (ok existing) = pure existing
  existing_or_new req batch_id correlation_id key (err _) =
      create_new req batch_id correlation_id key

  unfoldable pub create_notification :
      NotificationRequest → String → String → String → Fallible Notification
  unfolding existing_or_new
  create_notification req batch_id correlation_id key = do
    checked ← check_ctx env
    valid ← lift (validate_request req)
    if str_eq key "" then create_new req batch_id correlation_id key else do
      existing ← attempt (get_by_idempotency_key env key (tenant_id_of ctx))
      existing_or_new req batch_id correlation_id key existing

  -- The loop of `CreateBatch` over the requests.
  unfoldable pub build_items :
      String → String → Time → List NotificationRequest → Fallible (List Notification)
  build_items batch_id correlation_id now [] = pure []
  build_items batch_id correlation_id now (item ∷ items) = do
    checked ← check_ctx env
    valid ← lift (validate_request item)
    id ← new_id env
    rest ← build_items batch_id correlation_id now items
    pure (
        build_notification id (tenant_id_of ctx) batch_id correlation_id item.idempotency_key now
          item
        ∷ rest)

  note_all : List Notification → Fallible (Unit {0})
  unfolding note_accepted
  note_all [] = pure tt
  note_all (n ∷ ns) = do noted ← note_accepted env n; note_all ns

  unfoldable pub create_items :
      NotificationBatchRequest → String → Fallible (String × List Notification)
  unfolding note_all
  create_items req correlation_id = do
    batch_id ← new_id env
    now ← clock env
    items ← build_items batch_id correlation_id now req.notifications
    inserted ← insert_notifications env items
    mapped ←
        if str_eq req.idempotency_key ""
        then pure tt
        else upsert_request_mapping env req.idempotency_key batch_id (tenant_id_of ctx)
    noted ← note_all items
    pure (batch_id, items)

  batch_or_new :
      NotificationBatchRequest → String → Result String → Fallible (String × List Notification)
  unfolding create_items
  batch_or_new req correlation_id (ok batch_id) = do
    existing ← get_by_batch env batch_id (tenant_id_of ctx)
    pure (batch_id, existing)
  batch_or_new req correlation_id (err _) = create_items req correlation_id

  unfoldable pub create_batch :
      NotificationBatchRequest → String → Fallible (String × List Notification)
  unfolding batch_or_new
  create_batch req correlation_id = do
    checked ← check_ctx env
    if length req.notifications == 0
        then raise "notifications array is required"
        else if ltb 1000 (length req.notifications)
        then raise "batch size cannot exceed 1000"
        else if str_eq req.idempotency_key ""
        then create_items req correlation_id
        else do
          known ← attempt (get_batch_id_by_key env req.idempotency_key (tenant_id_of ctx))
          batch_or_new req correlation_id known
