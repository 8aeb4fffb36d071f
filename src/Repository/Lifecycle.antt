-- ===== src/Repository/Lifecycle.antt =====
-- internal/repository/postgres.go: a condition on the tables between two operations, and a relation
-- that says how a row of `notifications` may change. The children take up the statements.
pub mod Updates
pub mod Inserts
pub mod Claims
pub mod InFlight
pub mod Statements
use insider_one.Prelude.{
  ℕ, ◌≤◌, ◌<◌, String, ◌≡◌, ◌≢◌, true, false, Option, some, List, [], ◌∷◌, All, Pairs, exists,
}
use insider_one.Domain.{Status}
use insider_one.Repository.Claim.{is_waiting}
use insider_one.Repository.Machine.{Moves}
use insider_one.Repository.Schema.{Row, EventRow, RequestRow, Database}
use insider_one.Repository.Write.{is_open, has_id}

-- What no operation changes in a row.
pub record SameIdentity (r s : Row) : Type 0 where
  pub id : s.id ≡ r.id
  pub tenant_id : s.tenant_id ≡ r.tenant_id
  pub batch_id : s.batch_id ≡ r.batch_id
  pub recipient : s.recipient ≡ r.recipient
  pub channel : s.channel ≡ r.channel
  pub content : s.content ≡ r.content
  pub priority : s.priority ≡ r.priority
  pub max_attempts : s.max_attempts ≡ r.max_attempts
  pub created_at : s.created_at ≡ r.created_at
  pub correlation_id : s.correlation_id ≡ r.correlation_id
  pub idempotency_key : s.idempotency_key ≡ r.idempotency_key

-- A row goes on: its status and attempts by moves of the machine, attempts are only added, and a
-- status that is not open is final.
pub record Advances (r s : Row) : Type 0 where
  pub same : SameIdentity r s
  pub attempts : r.attempts ≤ s.attempts
  pub moves : Moves r.max_attempts r.status r.attempts s.status s.attempts
  pub settled : is_open r.status ≡ false → s ≡ r

-- The rows of a table go on, each in its place, and new ones may follow.
abbrev pub Evolves : List Row → List Row → Type 0
Evolves [] later = Unit
Evolves (r ∷ rows) [] = ⊥
Evolves (r ∷ rows) (s ∷ later) = Advances r s × Evolves rows later

-- The attempts of a row are within its maximum, and below it while the row is open.
abbrev pub IsWithin : Row → Type 0
IsWithin r = (r.attempts ≤ r.max_attempts) × (is_open r.status ≡ true → r.attempts < r.max_attempts)

-- The row has come from a first status, pending or scheduled, and no attempts by moves of the machine.
abbrev pub IsBorn : Row → Type 0
IsBorn r =
    (first : Status) × (is_waiting first ≡ true) × Moves r.max_attempts first 0 r.status r.attempts

abbrev pub IdsApart : Row → Row → Type 0
IdsApart r s = r.id ≢ s.id

-- No two rows of a tenant have one idempotency key.
abbrev pub KeysApart : Row → Row → Type 0
KeysApart r s =
    (k : String)
    → r.tenant_id ≡ s.tenant_id
    → r.idempotency_key ≡ some k
    → s.idempotency_key ≡ some k
    → ⊥

abbrev pub RequestsApart : RequestRow → RequestRow → Type 0
RequestsApart r s =
    (k : String)
    → r.tenant_id ≡ s.tenant_id
    → r.idempotency_key ≡ some k
    → s.idempotency_key ≡ some k
    → ⊥

-- The notification of an event is there.
abbrev pub IsOwned : List Row → EventRow → Type 0
IsOwned rows e = exists (has_id e.notification_id) rows ≡ true

pub record WellFormed (db : Database) : Type 0 where
  pub ids : Pairs IdsApart db.notifications
  pub keys : Pairs KeysApart db.notifications
  pub within : All IsWithin db.notifications
  pub born : All IsBorn db.notifications
  pub owned : All (IsOwned db.notifications) db.events
  pub numbered : Pairs (λ (e f : EventRow). e.id < f.id) db.events
  pub below_next : All (λ (e : EventRow). e.id < db.next_event_id) db.events
  pub requests : Pairs RequestsApart db.requests

-- An operation keeps the tables well formed, and their rows go on.
abbrev pub Lives : Database → Database → Type 0
Lives db db' = WellFormed db → WellFormed db' × Evolves db.notifications db'.notifications
