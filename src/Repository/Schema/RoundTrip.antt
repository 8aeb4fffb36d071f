-- ===== src/Repository/Schema/RoundTrip.antt =====
-- internal/repository/postgres.go: a value that is inserted, read back.
use insider_one.Prelude.{ℕ, String, ◌≡◌, arith, eq_iff}
use insider_one.Domain.{Time, Notification, DeliveryEvent}
use insider_one.Repository.Schema.{
  tenant_id, null_string, valid_string, map_time, notification_row, scan_notification, event_row,
  scan_event,
}

valid-null : (s : String) → valid_string (null_string s) ≡ s
unfolding valid_string null_string
valid-null s = ground (arith, eq_iff s "")

-- The notification that is read from the row of an inserted one is the one inserted, with a blank
-- tenant replaced by `default` and the times as the column keeps them; "" and NULL do not get
-- mixed up with other texts on the way.
pub scan-notification_row :
    (stored : Time → Time) (n : Notification)
    → scan_notification (notification_row stored n) ≡ record n {
      tenant_id = tenant_id n.tenant_id;
      scheduled_at = map_time stored n.scheduled_at;
      created_at = stored n.created_at;
      updated_at = stored n.updated_at;
    }
unfolding scan_notification notification_row
scan-notification_row stored n = grind (
  arith,
  valid-null n.correlation_id,
  valid-null n.idempotency_key,
  valid-null n.provider_message_id,
  valid-null n.last_error,
)

-- The event that is read from the row of a recorded one is the one recorded, with the id of the
-- sequence, a blank tenant replaced by `default` and the times as the column keeps them.
pub scan-event_row :
    (stored : Time → Time) (id : ℕ) (e : DeliveryEvent)
    → scan_event (event_row stored id e) ≡ record e {
      id = id;
      tenant_id = tenant_id e.tenant_id;
      next_attempt_at = map_time stored e.next_attempt_at;
      created_at = stored e.created_at;
    }
unfolding scan_event event_row
scan-event_row stored id e = grind (arith, valid-null e.reason, valid-null e.provider_message_id)
