-- ===== src/Domain.antt =====
-- internal/domain/notification.go: the data that the packages exchange.
-- A Go string that the code only compares is a `String`, and "" is the empty one. The seven
-- statuses, which the program alone writes, are an enumeration with their texts. A time is the
-- number of nanoseconds since Go's zero time, in UTC, and a duration a number of nanoseconds.
use insider_one.Prelude.{ℕ, String, Option, List}

abbrev pub Time : Type 0
Time = ℕ

abbrev pub Duration : Type 0
Duration = ℕ

abbrev pub second : Duration
second = 1_000_000_000

abbrev pub millisecond : Duration
millisecond = 1_000_000

abbrev pub Channel : Type 0
Channel = String

-- The values of `Channel` that the program names.
abbrev pub channel_sms : Channel
channel_sms = "sms"

abbrev pub channel_email : Channel
channel_email = "email"

abbrev pub channel_push : Channel
channel_push = "push"

abbrev pub Priority : Type 0
Priority = String

-- The values of `Priority` that the program names.
abbrev pub priority_high : Priority
priority_high = "high"

abbrev pub priority_normal : Priority
priority_normal = "normal"

abbrev pub priority_low : Priority
priority_low = "low"

pub data Status : Type 0 where
  pending processing delivered failed cancelled scheduled dead_letter : Status

-- The text of each status constant.
abbrev pub status_text : Status → String
status_text pending = "pending"
status_text processing = "processing"
status_text delivered = "delivered"
status_text failed = "failed"
status_text cancelled = "cancelled"
status_text scheduled = "scheduled"
status_text dead_letter = "dead_letter"

pub record DeliveryEvent : Type 0 where
  pub id : ℕ
  pub tenant_id : String
  pub notification_id : String
  pub batch_id : String
  pub channel : Channel
  pub status : Status
  pub attempt : ℕ
  pub reason : String
  pub next_attempt_at : Option Time
  pub provider_status : ℕ
  pub provider_message_id : String
  pub created_at : Time

pub record Notification : Type 0 where
  pub id : String
  pub tenant_id : String
  pub batch_id : String
  pub recipient : String
  pub channel : Channel
  pub content : String
  pub priority : Priority
  pub status : Status
  pub attempts : ℕ
  pub max_attempts : ℕ
  pub scheduled_at : Option Time
  pub created_at : Time
  pub updated_at : Time
  pub correlation_id : String
  pub idempotency_key : String
  pub provider_message_id : String
  pub last_error : String

pub record NotificationRequest : Type 0 where
  pub recipient : String
  pub channel : Channel
  pub content : String
  pub priority : Priority
  pub scheduled_at : Option Time
  pub idempotency_key : String

pub record NotificationBatchRequest : Type 0 where
  pub notifications : List NotificationRequest
  pub idempotency_key : String
