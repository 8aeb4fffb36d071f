-- ===== src/Repository/Write.antt =====
-- internal/repository/postgres.go: the methods that insert and update rows. Each SQL statement is a
-- function on the tables, and a method runs its statements on the connection.
pub mod Atomic
use insider_one.Prelude.{
  ℕ, suc, ◌+◌, String, Bool, true, false, ◌&&◌, Option, none, some, List, [], ◌∷◌, ◌++◌, map,
  length, keep_if, exists, ◌==◌, str_eq, if◌then◌else◌,
}
use insider_one.Domain.{
  Time, Status, pending, processing, delivered, failed, cancelled, scheduled, dead_letter,
  Notification, DeliveryEvent,
}
use insider_one.Repository.Schema.{
  Row, RequestRow, Database, tenant_id, key_is, notification_row, event_row,
}
use insider_one.Runtime.{
  Result, ok, err, Env, Fallible, pure, ◌>>=◌, clock, exec, tx_exec, begin_tx, commit,
}

-- Whether the unique index on `(tenant_id, idempotency_key)` has an entry of the row already.
abbrev pub key_taken : String → Option String → List Row → Bool
key_taken tenant none rows = false
key_taken tenant (some k) rows =
    exists (λ r. str_eq r.tenant_id tenant && key_is r.idempotency_key k) rows

abbrev pub has_id : String → Row → Bool
has_id id r = str_eq r.id id

abbrev pub request_taken : String → String → RequestRow → Bool
request_taken tenant key r = str_eq r.tenant_id tenant && key_is r.idempotency_key key

-- `status IN ($pending, $scheduled, $processing)`
abbrev pub is_open : Status → Bool
is_open pending = true
is_open scheduled = true
is_open processing = true
is_open _ = false

-- `UPDATE notifications SET f WHERE p`
abbrev pub update_rows : (Row → Bool) → (Row → Row) → List Row → List Row
update_rows p f rows = map (λ r. if p r then f r else r) rows

abbrev pub update_where : (Row → Bool) → (Row → Row) → Database → Result (Unit {0}) × Database
update_where p f db = (ok tt, record db { notifications = update_rows p f db.notifications })

-- The four assignments of the Mark methods; `attempts = attempts + 1` in each.
unfoldable pub set_delivered : String → Time → Row → Row
set_delivered message_id now r = record r {
  status = delivered;
  provider_message_id = some message_id;
  attempts = r.attempts + 1;
  updated_at = now;
}

unfoldable pub set_failed : Status → String → Time → Row → Row
set_failed status message now r = record r {
  status = status;
  attempts = r.attempts + 1;
  last_error = some message;
  scheduled_at = none;
  updated_at = now;
}

unfoldable pub set_retry : String → Time → Time → Row → Row
set_retry message next_attempt_at now r = record r {
  status = scheduled;
  attempts = r.attempts + 1;
  last_error = some message;
  scheduled_at = some next_attempt_at;
  updated_at = now;
}

unfoldable pub set_cancelled : Time → Row → Row
set_cancelled now r = record r { status = cancelled; updated_at = now }

-- The rows that `CancelPending` updates.
unfoldable pub cancellable : List String → String → Row → Bool
cancellable ids tenant r =
    str_eq r.tenant_id tenant && (exists (λ id. str_eq r.id id) ids && is_open r.status)

module _ (env : Env) where
  -- The INSERT of one notification: the primary key, then the partial unique index.
  unfoldable pub insert_row : Row → Database → Result (Unit {0}) × Database
  insert_row row db =
      if exists (has_id row.id) db.notifications
      then (err (env.unique_violation "notifications_pkey"), db)
      else if key_taken row.tenant_id row.idempotency_key db.notifications
      then (err (env.unique_violation "idx_notifications_tenant_idempotency"), db)
      else (ok tt, record db { notifications = db.notifications ++ row ∷ [] })

  -- The loop of `InsertNotifications`, on the view of its transaction.
  unfoldable pub insert_loop : List Notification → Database → Fallible Database
  insert_loop [] tx = pure tx
  insert_loop (n ∷ ns) tx = do
    (done, tx') ← tx_exec env (insert_row (notification_row env.stored n)) tx
    insert_loop ns tx'

  unfoldable pub insert_notifications : List Notification → Fallible (Unit {0})
  insert_notifications notifications = do
    tx ← begin_tx env
    tx' ← insert_loop notifications tx
    commit env tx'

  -- The INSERT of one event. The sequence moves on where the foreign key refuses the row too.
  unfoldable pub insert_event : DeliveryEvent → Database → Result (Unit {0}) × Database
  insert_event event db =
      if exists (has_id event.notification_id) db.notifications
      then (
        ok tt,
        record db {
          events = db.events ++ event_row env.stored db.next_event_id event ∷ [];
          next_event_id = suc db.next_event_id;
        },
      )
      else (err env.foreign_key_violation, record db { next_event_id = suc db.next_event_id })

  unfoldable pub record_event : DeliveryEvent → Fallible (Unit {0})
  record_event event = do
    created_at ← if event.created_at == 0 then clock env else pure event.created_at
    exec env (insert_event (record event { created_at = created_at }))

  -- `ON CONFLICT … DO NOTHING`: the first mapping stays. The sequence moves on in either case.
  unfoldable pub insert_request :
      String → String → String → Time → Database → Result (Unit {0}) × Database
  insert_request key batch_id tenant now db =
      if exists (request_taken tenant key) db.requests
      then (ok tt, record db { next_request_id = suc db.next_request_id })
      else (
        ok tt,
        record db {
          requests =
              db.requests
              ++ record {
                id = db.next_request_id;
                tenant_id = tenant;
                idempotency_key = some key;
                batch_id = batch_id;
                created_at = env.stored now;
              }
                ∷ [];
          next_request_id = suc db.next_request_id;
        },
      )

  unfoldable pub upsert_request_mapping : String → String → String → Fallible (Unit {0})
  upsert_request_mapping key batch_id tenant = do
    now ← clock env
    exec env (insert_request key batch_id (tenant_id tenant) now)

  -- The UPDATE of `CancelPending`, which returns the number of rows that it has changed.
  unfoldable pub cancel_rows : List String → String → Time → Database → Result ℕ × Database
  cancel_rows ids tenant now db = (
    ok (length (keep_if (cancellable ids tenant) db.notifications)),
    record db {
      notifications =
          update_rows (cancellable ids tenant) (set_cancelled (env.stored now)) db.notifications;
    },
  )

  unfoldable pub cancel_some : List String → String → Fallible ℕ
  cancel_some ids tenant = do now ← clock env; exec env (cancel_rows ids (tenant_id tenant) now)

  unfoldable pub cancel_pending : List String → String → Fallible ℕ
  unfolding cancel_some
  cancel_pending [] tenant = pure 0
  cancel_pending (id ∷ ids) tenant = cancel_some (id ∷ ids) tenant

  -- A provider's id with a NUL, which TEXT cannot hold, is a `refused` UPDATE.
  unfoldable pub mark_delivered : String → String → Fallible (Unit {0})
  mark_delivered id provider_message_id = do
    now ← clock env
    exec env (update_where (has_id id) (set_delivered provider_message_id (env.stored now)))

  unfoldable pub mark_failed : String → String → Fallible (Unit {0})
  mark_failed id message = do
    now ← clock env
    exec env (update_where (has_id id) (set_failed failed message (env.stored now)))

  unfoldable pub mark_dead_letter : String → String → Fallible (Unit {0})
  mark_dead_letter id message = do
    now ← clock env
    exec env (update_where (has_id id) (set_failed dead_letter message (env.stored now)))

  unfoldable pub schedule_retry : String → String → Time → Fallible (Unit {0})
  schedule_retry id message next_attempt_at = do
    now ← clock env
    exec env
        (update_where (has_id id) (set_retry message (env.stored next_attempt_at) (env.stored now)))
