-- ===== src/Tests.antt =====
-- Runs at concrete inputs: a service with one sandbox provider, one tenant, calm surroundings
-- and a clock that moves one second at each step.
mod Witnesses
mod Server
mod System
mod Idempotent
mod PureWitnesses
use insider_one.Prelude.{
  ℕ, ◌+◌, ◌*◌, ◌≡◌, refl, String, Bool, true, false, Option, none, some, List, [], ◌∷◌, map, length,
}
use insider_one.Domain.{
  Time, Status, pending, delivered, cancelled, scheduled, dead_letter, NotificationRequest,
  Notification, second,
}
use insider_one.Httpx.Context.{Context, background, with_tenant_id}
use insider_one.Metrics
use insider_one.Provider
use insider_one.Provider.Message.{Exchange, unsent}
use insider_one.Repository.Errors.{
  is_unique_constraint_error, wrap_unique_constraint, placeholder_parts, join_commas, placeholders,
}
use insider_one.Repository.Schema.{Row, Database, empty}
use insider_one.Runtime.{Env, World, taken, Result, ok}
use insider_one.Service
use insider_one.Service.{Service}
use insider_one.Service.Create.{says_unique_failed, create_notification}
use insider_one.Service.Rules.{validate_request}
use insider_one.Service.Operations.{Operation, create, cancel, work, metrics, run}

-- 2026-01-01, in seconds since the year 1.
abbrev pub start_second : ℕ
start_second = 63_902_822_400

abbrev pub calm : Env
calm = record {
  now = λ t. (start_second + t) * second;
  random = λ t n. some (t ∷ []);
  ctx_err = λ t. none;
  fault = λ t. taken;
  locked = λ t id. false;
  exchange = λ t endpoint req. unsent "connection refused";
  time_text = λ layout t. "";
  stored = λ t. t;
  unique_violation =
      λ index. "ERROR: duplicate key value violates unique constraint (SQLSTATE 23505)";
  foreign_key_violation = "ERROR: violates foreign key constraint (SQLSTATE 23503)";
  no_rows = "sql: no rows in result set";
  out_of_range = "ERROR: integer out of range (SQLSTATE 22003)";
  negative_offset = "ERROR: OFFSET must not be negative (SQLSTATE 2201X)";
}

abbrev pub fresh : World
fresh = record { db = empty; metrics = Metrics.new; tick = 0 }

abbrev pub service : Service
service = Service.new (Provider.new "") []

abbrev pub caller : Context
caller = with_tenant_id background "acme"

abbrev pub sms_request : NotificationRequest
sms_request = record {
  recipient = "+905550000000";
  channel = "sms";
  content = "hello";
  priority = "high";
  scheduled_at = none;
  idempotency_key = "";
}

abbrev pub day : List Operation
day =
    create caller sms_request "" "corr" "k1"
    ∷ create caller sms_request "" "corr" "k2"
    ∷ cancel caller ("0e" ∷ [])
    ∷ work "sms"
    ∷ metrics
    ∷ []

abbrev statuses : World → List Status
statuses w = map (λ (r : Row). r.status) w.db.notifications

-- The service looks for SQLite's text; the error of PostgreSQL at a unique index is another.
no_unique_text : says_unique_failed (calm.unique_violation "idx") ≡ false
unfolding says_unique_failed insider_one.Prelude.Text.contains insider_one.Prelude.Text.to_lower
no_unique_text = refl

sqlite_text : says_unique_failed "UNIQUE constraint failed: notifications.id" ≡ true
unfolding says_unique_failed insider_one.Prelude.Text.contains insider_one.Prelude.Text.to_lower
sqlite_text = refl

-- The repository's helper, which nothing calls, knows PostgreSQL's error.
unique_text :
    (is_unique_constraint_error (some (calm.unique_violation "idx")) ≡ true)
    × (wrap_unique_constraint (some "connection refused") "k1" ≡ some "connection refused")
    × (placeholders 4 3 ≡ "$4,$5,$6")
unfolding is_unique_constraint_error wrap_unique_constraint placeholders placeholder_parts
    join_commas insider_one.Prelude.Text.decimal insider_one.Prelude.Text.contains
    insider_one.Prelude.Text.to_lower
unique_text = (refl, refl, refl)

-- The same service with a webhook, which refuses.
abbrev pub abroad : Service
abroad = Service.new (Provider.new "https://webhook.example/hook") []

-- A minute passes between two steps, so that every retry is due.
abbrev pub slow : Env
slow = record calm { now = λ t. (start_second + 60 * t) * second }

abbrev attempts : World → List (Status × ℕ)
attempts w = map (λ (r : Row). (r.status, r.attempts)) w.db.notifications

abbrev send_and : List Operation → List Operation
send_and ops = create caller sms_request "" "" "" ∷ work "sms" ∷ ops

-- A day's second notification is cancelled before the worker comes, and the first is delivered; a
-- webhook that refuses leaves a notification with a retry, and after three attempts dead-lettered.
scenarios :
    (statuses (run calm service day fresh) ≡ delivered ∷ cancelled ∷ [])
    × (attempts (run calm abroad (send_and []) fresh) ≡ (scheduled, 1) ∷ [])
    × (attempts (run slow abroad (send_and (work "sms" ∷ work "sms" ∷ work "sms" ∷ [])) fresh)
        ≡ (dead_letter, 3) ∷ [])
unfolding insider_one.Runtime.◌>>=◌ insider_one.Runtime.attempt insider_one.Runtime.ignore
    insider_one.Runtime.lift insider_one.Runtime.ask insider_one.Runtime.modify_metrics
    insider_one.Runtime.get_metrics insider_one.Runtime.under_fault
    insider_one.Runtime.view_under_fault insider_one.Runtime.clock insider_one.Runtime.check_ctx
    insider_one.Runtime.exec insider_one.Runtime.query insider_one.Runtime.tx_exec
    insider_one.Runtime.begin_tx insider_one.Runtime.commit insider_one.Service.with_option
    insider_one.Service.new insider_one.Service.get insider_one.Service.get_batch
    insider_one.Service.list insider_one.Service.dead_letters insider_one.Service.events
    insider_one.Service.cancel insider_one.Service.note_depth insider_one.Service.metrics_snapshot
    insider_one.Service.Rules.validate_request insider_one.Service.Rules.normalize_priority
    insider_one.Service.Rules.should_retry_delivery insider_one.Service.Rules.backoff_delay
    insider_one.Service.Rules.jittered insider_one.Service.Rules.backoff
    insider_one.Service.Rules.new_id insider_one.Service.Create.initial_status
    insider_one.Service.Create.build_notification insider_one.Service.Create.says_unique_failed
    insider_one.Service.Create.note_event insider_one.Service.Create.after_insert
    insider_one.Service.Create.create_new insider_one.Service.Create.create_notification
    insider_one.Service.Create.build_items insider_one.Service.Create.create_items
    insider_one.Service.Create.create_batch insider_one.Service.Process.failure_message
    insider_one.Service.Process.outcome insider_one.Service.Process.settle
    insider_one.Service.Process.count_outcome insider_one.Service.Process.deliver
    insider_one.Service.Process.deliver_all insider_one.Service.Process.claim_and_deliver
    insider_one.Service.Process.process_channel insider_one.Service.Operations.perform
    insider_one.Service.Operations.run insider_one.Repository.Schema.tenant_id
    insider_one.Repository.Schema.null_string insider_one.Repository.Schema.valid_string
    insider_one.Repository.Schema.notification_row insider_one.Repository.Schema.scan_notification
    insider_one.Repository.Schema.scan_event insider_one.Repository.Schema.event_row
    insider_one.Repository.Write.set_delivered insider_one.Repository.Write.set_failed
    insider_one.Repository.Write.set_retry insider_one.Repository.Write.set_cancelled
    insider_one.Repository.Write.cancellable insider_one.Repository.Write.insert_row
    insider_one.Repository.Write.insert_loop insider_one.Repository.Write.insert_notifications
    insider_one.Repository.Write.insert_event insider_one.Repository.Write.record_event
    insider_one.Repository.Write.insert_request insider_one.Repository.Write.upsert_request_mapping
    insider_one.Repository.Write.cancel_rows insider_one.Repository.Write.cancel_some
    insider_one.Repository.Write.cancel_pending insider_one.Repository.Write.mark_delivered
    insider_one.Repository.Write.mark_failed insider_one.Repository.Write.mark_dead_letter
    insider_one.Repository.Write.schedule_retry insider_one.Repository.Read.list_filter
    insider_one.Repository.Read.get_batch_id_by_key insider_one.Repository.Read.get_notification
    insider_one.Repository.Read.get_by_idempotency_key insider_one.Repository.Read.get_by_batch
    insider_one.Repository.Read.list_notifications insider_one.Repository.Read.list_dead_letters
    insider_one.Repository.Read.list_events insider_one.Repository.Sort.insert_by
    insider_one.Repository.Sort.sort_by insider_one.Repository.Claim.priority_rank
    insider_one.Repository.Claim.claims_before insider_one.Repository.Claim.claimable
    insider_one.Repository.Claim.candidates insider_one.Repository.Claim.set_processing
    insider_one.Repository.Claim.claim_rows insider_one.Repository.Claim.claim_due
    insider_one.Repository.Claim.queue_depth_by_channel
    insider_one.Repository.RateLimit.truncate_second insider_one.Repository.RateLimit.upsert_window
    insider_one.Repository.RateLimit.upsert_statement insider_one.Repository.RateLimit.use_slots
    insider_one.Repository.RateLimit.acquire_rate_limit_slots insider_one.Provider.is_noop_endpoint
    insider_one.Provider.new_sender insider_one.Provider.endpoint_for
    insider_one.Provider.new_with_endpoints insider_one.Provider.new
    insider_one.Provider.webhook_result insider_one.Provider.sender_for
    insider_one.Provider.random_id insider_one.Provider.noop_send insider_one.Provider.webhook_send
    insider_one.Provider.send_by insider_one.Provider.send insider_one.Metrics.set_queue_depth
    insider_one.Metrics.inc_success insider_one.Metrics.inc_failure insider_one.Metrics.snapshot
    insider_one.Httpx.Context.with_request_id insider_one.Httpx.Context.with_correlation_id
    insider_one.Httpx.Context.with_tenant_id insider_one.Httpx.Context.request_id_of
    insider_one.Httpx.Context.correlation_id_of insider_one.Httpx.Context.tenant_id_of
    insider_one.Prelude.Text.is_space insider_one.Prelude.Text.trim_space
    insider_one.Prelude.Text.lower_ascii insider_one.Prelude.Text.to_lower
    insider_one.Prelude.Text.contains insider_one.Prelude.Text.hex_encode
    insider_one.Prelude.Text.decimal insider_one.Prelude.Int.◌+ℤ◌
scenarios = (refl, refl, refl)
