-- ===== src/Repository/Claim.antt =====
-- internal/repository/postgres.go: `ClaimDue`, the queue's dequeue operation, and
-- `QueueDepthByChannel`.
-- PostgreSQL leaves open which of two rows comes first under equal keys, and in which order
-- RETURNING lists the updated rows; here both follow the table's order.
pub mod Meaning
pub mod Order
pub mod Exclusive
use insider_one.Prelude.{
  ℕ, String, Bool, true, false, not, ◌&&◌, ◌||◌, Option, none, some, List, map, length, take,
  keep_if, exists, ltb, leb, ◌==◌, str_eq, if◌then◌else◌,
}
use insider_one.Domain.{
  Time, Channel, Priority, Status, pending, processing, scheduled, Notification,
}
use insider_one.Repository.Schema.{Row, Database, scan_notification}
use insider_one.Repository.Write.{update_rows}
use insider_one.Repository.Sort.{sort_by}
use insider_one.Runtime.{Result, ok, Env, Fallible, ◌>>=◌, ask, clock, exec, query}

-- `status IN ($pending, $scheduled)`
abbrev pub is_waiting : Status → Bool
is_waiting pending = true
is_waiting scheduled = true
is_waiting _ = false

-- `scheduled_at IS NULL OR scheduled_at <= $now`
abbrev pub is_due : Option Time → Time → Bool
is_due none now = true
is_due (some t) now = leb t now

-- The CASE of the ORDER BY.
unfoldable pub priority_rank : Priority → ℕ
priority_rank p = if str_eq p "high" then 0 else if str_eq p "normal" then 1 else 2

-- `ORDER BY rank, created_at ASC`: whether `a` may stand before `b`.
unfoldable pub claims_before : Row → Row → Bool
claims_before a b =
    ltb (priority_rank a.priority) (priority_rank b.priority)
    || (priority_rank a.priority == priority_rank b.priority && leb a.created_at b.created_at)

-- The WHERE clause of the candidates, and SKIP LOCKED.
unfoldable pub claimable : (String → Bool) → Channel → Time → Row → Bool
claimable locked channel now r =
    str_eq r.channel channel
    && (is_waiting r.status && (is_due r.scheduled_at now && not (locked r.id)))

-- The common table expression `candidate`.
unfoldable pub candidates : (String → Bool) → Channel → Time → ℕ → List Row → List Row
candidates locked channel now limit rows =
    take limit (sort_by claims_before (keep_if (claimable locked channel now) rows))

-- `n.id = candidate.id`
abbrev pub is_among : List Row → Row → Bool
is_among chosen r = exists (λ c. str_eq c.id r.id) chosen

unfoldable pub set_processing : Time → Row → Row
set_processing now r = record r { status = processing; updated_at = now }

-- The whole statement, for the rows that other transactions hold and the two clock readings.
unfoldable pub claim_rows :
    (String → Bool) → Channel → Time → Time → ℕ → Database → Result (List Notification) × Database
claim_rows locked channel now updated limit db =
    let chosen = candidates locked channel now limit db.notifications in
    let rows = update_rows (is_among chosen) (set_processing updated) db.notifications in
    (
      ok (map scan_notification (keep_if (is_among chosen) rows)),
      record db { notifications = rows },
    )

-- Whether a row counts for `QueueDepthByChannel`.
abbrev pub is_queued : Channel → Row → Bool
is_queued channel r = str_eq r.channel channel && is_waiting r.status

module _ (env : Env) where
  unfoldable pub claim_due : Channel → ℕ → Fallible (List Notification)
  claim_due channel limit = do
    now ← clock env
    updated ← clock env
    locked ← ask env.locked
    exec env (claim_rows locked channel (env.stored now) (env.stored updated) limit)

  unfoldable pub queue_depth_by_channel : Channel → Fallible ℕ
  queue_depth_by_channel channel =
      query env (λ db. ok (length (keep_if (is_queued channel) db.notifications)))
