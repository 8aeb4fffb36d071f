-- ===== src/Repository/Schema.antt =====
-- internal/repository/postgres.go: the tables of `schema`, and how a Go value becomes a row and
-- back. A nullable column is an `Option`. A table is the list of its rows in insertion order.
pub mod RoundTrip
use insider_one.Prelude.{
  ℕ, String, Bool, false, Option, none, some, List, [], str_eq, if◌then◌else◌,
}
use insider_one.Prelude.Text.{trim_space}
use insider_one.Domain.{Time, Channel, Priority, Status, Notification, DeliveryEvent}

pub record Row : Type 0 where
  pub id : String
  pub tenant_id : String
  pub batch_id : String
  pub recipient : String
  pub channel : Channel
  pub content : String
  pub priority : Priority
  pub status : Status
  pub attempts : ℕ
  pub max_attempts : ℕ
  pub scheduled_at : Option Time
  pub created_at : Time
  pub updated_at : Time
  pub correlation_id : Option String
  pub idempotency_key : Option String
  pub provider_message_id : Option String
  pub last_error : Option String

pub record EventRow : Type 0 where
  pub id : ℕ
  pub tenant_id : String
  pub notification_id : String
  pub batch_id : String
  pub channel : Channel
  pub status : Status
  pub attempt : ℕ
  pub reason : Option String
  pub next_attempt_at : Option Time
  pub provider_status : ℕ
  pub provider_message_id : Option String
  pub created_at : Time

pub record RequestRow : Type 0 where
  pub id : ℕ
  pub tenant_id : String
  pub idempotency_key : Option String
  pub batch_id : String
  pub created_at : Time

-- The counters are INTEGER columns: `upsert_statement` has the bound of the first, and the second is at
-- most the first.
pub record WindowRow : Type 0 where
  pub key : String
  pub window_start : Time
  pub limit_count : ℕ
  pub used_count : ℕ

-- The four tables, and the next values of the two BIGSERIAL sequences.
pub record Database : Type 0 where
  pub requests : List RequestRow
  pub notifications : List Row
  pub events : List EventRow
  pub windows : List WindowRow
  pub next_request_id : ℕ
  pub next_event_id : ℕ

-- What `schema` creates in an empty database.
abbrev pub empty : Database
empty = record {
  requests = [];
  notifications = [];
  events = [];
  windows = [];
  next_request_id = 1;
  next_event_id = 1;
}

-- `tenantID`.
unfoldable pub tenant_id : String → String
tenant_id value = if str_eq (trim_space value) "" then "default" else value

-- `nullString`.
unfoldable pub null_string : String → Option String
null_string value = if str_eq value "" then none else some value

-- `if s.Valid { n.f = s.String }` over a zero value.
unfoldable pub valid_string : Option String → String
valid_string none = ""
valid_string (some s) = s

abbrev pub map_time : (Time → Time) → Option Time → Option Time
map_time f none = none
map_time f (some t) = some (f t)

-- The arguments of the INSERT in `InsertNotifications`; `stored` is what a TIMESTAMPTZ keeps.
unfoldable pub notification_row : (Time → Time) → Notification → Row
unfolding tenant_id null_string
notification_row stored n = record {
  id = n.id;
  tenant_id = tenant_id n.tenant_id;
  batch_id = n.batch_id;
  recipient = n.recipient;
  channel = n.channel;
  content = n.content;
  priority = n.priority;
  status = n.status;
  attempts = n.attempts;
  max_attempts = n.max_attempts;
  scheduled_at = map_time stored n.scheduled_at;
  created_at = stored n.created_at;
  updated_at = stored n.updated_at;
  correlation_id = null_string n.correlation_id;
  idempotency_key = null_string n.idempotency_key;
  provider_message_id = null_string n.provider_message_id;
  last_error = null_string n.last_error;
}

-- `scanNotification`, on a row that the driver has read.
unfoldable pub scan_notification : Row → Notification
unfolding valid_string
scan_notification r = record {
  id = r.id;
  tenant_id = r.tenant_id;
  batch_id = r.batch_id;
  recipient = r.recipient;
  channel = r.channel;
  content = r.content;
  priority = r.priority;
  status = r.status;
  attempts = r.attempts;
  max_attempts = r.max_attempts;
  scheduled_at = r.scheduled_at;
  created_at = r.created_at;
  updated_at = r.updated_at;
  correlation_id = valid_string r.correlation_id;
  idempotency_key = valid_string r.idempotency_key;
  provider_message_id = valid_string r.provider_message_id;
  last_error = valid_string r.last_error;
}

-- `scanEvent`.
unfoldable pub scan_event : EventRow → DeliveryEvent
unfolding valid_string
scan_event r = record {
  id = r.id;
  tenant_id = r.tenant_id;
  notification_id = r.notification_id;
  batch_id = r.batch_id;
  channel = r.channel;
  status = r.status;
  attempt = r.attempt;
  reason = valid_string r.reason;
  next_attempt_at = r.next_attempt_at;
  provider_status = r.provider_status;
  provider_message_id = valid_string r.provider_message_id;
  created_at = r.created_at;
}

-- The arguments of the INSERT in `RecordEvent`, with the id that the sequence gives.
unfoldable pub event_row : (Time → Time) → ℕ → DeliveryEvent → EventRow
unfolding tenant_id null_string
event_row stored id e = record {
  id = id;
  tenant_id = tenant_id e.tenant_id;
  notification_id = e.notification_id;
  batch_id = e.batch_id;
  channel = e.channel;
  status = e.status;
  attempt = e.attempt;
  reason = null_string e.reason;
  next_attempt_at = map_time stored e.next_attempt_at;
  provider_status = e.provider_status;
  provider_message_id = null_string e.provider_message_id;
  created_at = stored e.created_at;
}

-- Equality of an `idempotency_key` column with a text: `NULL = x` does not hold.
abbrev pub key_is : Option String → String → Bool
key_is none key = false
key_is (some k) key = str_eq k key
