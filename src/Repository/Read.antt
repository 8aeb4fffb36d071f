-- ===== src/Repository/Read.antt =====
-- internal/repository/postgres.go: the methods that only read.
pub mod Listing
use insider_one.Prelude.{
  ℕ, String, Bool, true, ◌&&◌, Option, none, some, List, map, find, take, drop, keep_if, leb,
  str_eq, if◌then◌else◌,
}
use insider_one.Prelude.Int.{ℤ, pos, negsuc}
use insider_one.Domain.{Time, status_text, dead_letter, Notification, DeliveryEvent}
use insider_one.Repository.Schema.{Row, tenant_id, key_is, scan_notification, scan_event, map_time}
use insider_one.Repository.Sort.{sort_by}
use insider_one.Runtime.{Result, ok, err, Env, Error, Fallible, query}

-- `QueryRowContext(…).Scan(…)`: the first row, or the error that there is none.
abbrev pub one_row : {A : Type 0} → Error → Option A → Result A
one_row no_rows none = err no_rows
one_row no_rows (some a) = ok a

abbrev pub map_option : {A B : Type 0} → (A → B) → Option A → Option B
map_option f none = none
map_option f (some a) = some (f a)

abbrev pub in_tenant : String → Row → Bool
in_tenant tenant r = str_eq r.tenant_id tenant

-- `LIMIT l OFFSET o`, which PostgreSQL refuses at a negative offset.
abbrev pub page : {A : Type 0} → Error → ℕ → ℤ → List A → Result (List A)
page negative limit (pos offset) rows = ok (take limit (drop offset rows))
page negative limit (negsuc offset) rows = err negative

-- An optional condition on a text, left out where the text is empty.
abbrev pub text_filter : String → String → Bool
text_filter wanted actual = if str_eq wanted "" then true else str_eq actual wanted

abbrev pub from_filter : Option Time → Time → Bool
from_filter none t = true
from_filter (some from) t = leb from t

abbrev pub to_filter : Option Time → Time → Bool
to_filter none t = true
to_filter (some to) t = leb t to

abbrev pub newest_first : Row → Row → Bool
newest_first a b = leb b.created_at a.created_at

abbrev pub oldest_first : Row → Row → Bool
oldest_first a b = leb a.created_at b.created_at

-- The clauses that `List` joins by AND.
unfoldable pub list_filter : String → String → String → Option Time → Option Time → Row → Bool
list_filter tenant status channel from to r =
    in_tenant tenant r
    && (text_filter status (status_text r.status)
        && (text_filter channel r.channel
            && (from_filter from r.created_at && to_filter to r.created_at)))

module _ (env : Env) where
  unfoldable pub get_batch_id_by_key : String → String → Fallible String
  get_batch_id_by_key key tenant = query env (λ db. one_row env.no_rows (
      map_option (λ r. r.batch_id)
        (find (λ r. key_is r.idempotency_key key && str_eq r.tenant_id (tenant_id tenant))
          db.requests)))

  unfoldable pub get_notification : String → String → Fallible Notification
  get_notification id tenant = query env (λ db. one_row env.no_rows (
      map_option scan_notification
        (find (λ r. str_eq r.id id && in_tenant (tenant_id tenant) r) db.notifications)))

  unfoldable pub get_by_idempotency_key : String → String → Fallible Notification
  get_by_idempotency_key key tenant = query env (λ db. one_row env.no_rows (
      map_option scan_notification (
        find (λ r. key_is r.idempotency_key key && in_tenant (tenant_id tenant) r)
          db.notifications)))

  -- An id with a NUL, which TEXT cannot hold, is a `refused` SELECT. `scanNotifications` gives a nil slice
  -- where there is no row, and that is `[]` here and in the other lists that are read.
  unfoldable pub get_by_batch : String → String → Fallible (List Notification)
  get_by_batch batch_id tenant = query env (λ db. ok (
      map scan_notification (
        sort_by oldest_first (
          keep_if (λ r. str_eq r.batch_id batch_id && in_tenant (tenant_id tenant) r)
            db.notifications))))

  -- `List`
  unfoldable pub list_notifications :
      String → String → Option Time → Option Time → ℕ → ℤ → String → Fallible (List Notification)
  list_notifications status channel from to limit offset tenant = query env (λ db.
      page env.negative_offset limit offset (
        map scan_notification (
          sort_by newest_first (
            keep_if
              (list_filter (tenant_id tenant) status channel (map_time env.stored from)
                (map_time env.stored to))
              db.notifications))))

  unfoldable pub list_dead_letters : String → ℕ → ℤ → String → Fallible (List Notification)
  unfolding list_notifications
  list_dead_letters channel limit offset tenant =
      list_notifications (status_text dead_letter) channel none none limit offset tenant

  -- The events of a notification by id, which is the order of the table.
  unfoldable pub list_events : String → ℕ → ℤ → String → Fallible (List DeliveryEvent)
  list_events notification_id limit offset tenant = query env (λ db.
      page env.negative_offset limit offset (
        map scan_event (
          sort_by (λ a b. leb a.id b.id)
            (keep_if
              (λ e.
                str_eq e.notification_id notification_id && str_eq e.tenant_id (tenant_id tenant))
              db.events))))
