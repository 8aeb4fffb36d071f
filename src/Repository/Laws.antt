-- ===== src/Repository/Laws.antt =====
-- The interface between the repository and the service, as far as the tables go: relations between
-- the tables before and after that the SQL statements respect, and that the methods respect.
pub mod Methods
use insider_one.Prelude.{ℕ, String, Bool, List, All}
use insider_one.Domain.{Time, Channel, Notification, DeliveryEvent}
use insider_one.Repository.Schema.{Row, Database, notification_row}
use insider_one.Repository.Write.{
  insert_row, insert_event, insert_request, cancel_rows, update_where, insert_notifications,
  record_event, upsert_request_mapping, cancel_pending, mark_delivered, mark_failed,
  mark_dead_letter, schedule_retry,
}
use insider_one.Repository.Claim.{claim_due, claim_rows}
use insider_one.Repository.Lifecycle.Inserts.{IsFresh}
use insider_one.Runtime.{Env}
use insider_one.Runtime.Keeps.{IsPreorder, Keeps}

-- The statements behind creating and cancelling.
pub record StatementLaws (R : Database → Database → Type 0) (env : Env) : Type 0 where
  pub preorder : IsPreorder R
  pub row :
      (n : Notification) (db : Database)
      → IsFresh n
      → R db (insert_row env (notification_row env.stored n) db).1
  pub event : (event : DeliveryEvent) (db : Database) → R db (insert_event env event db).1
  pub request :
      (key batch_id tenant : String) (now : Time) (db : Database)
      → R db (insert_request env key batch_id tenant now db).1
  pub cancel :
      (ids : List String) (tenant : String) (now : Time) (db : Database)
      → R db (cancel_rows env ids tenant now db).1

-- The statements behind delivering, for relations that hold of every UPDATE of notifications.
pub record UpdateLaws (R : Database → Database → Type 0) : Type 0 where
  pub update : (p : Row → Bool) (f : Row → Row) (db : Database) → R db (update_where p f db).1
  pub claim :
      (locked : String → Bool) (channel : Channel) (now updated : Time) (limit : ℕ) (db : Database)
      → R db (claim_rows locked channel now updated limit db).1

-- The methods behind creating and cancelling.
pub record RepositoryLaws (R : Database → Database → Type 0) (env : Env) : Type 0 where
  pub preorder : IsPreorder R
  pub insert_all : (ns : List Notification) → All IsFresh ns → Keeps R (insert_notifications env ns)
  pub add_event : (event : DeliveryEvent) → Keeps R (record_event env event)
  pub map_request :
      (key batch_id tenant : String) → Keeps R (upsert_request_mapping env key batch_id tenant)
  pub cancel : (ids : List String) (tenant : String) → Keeps R (cancel_pending env ids tenant)

-- The methods behind delivering, for relations that hold of a Mark method wherever it is called.
pub record DeliveryLaws (R : Database → Database → Type 0) (env : Env) : Type 0 where
  pub claim : (channel : Channel) (limit : ℕ) → Keeps R (claim_due env channel limit)
  pub deliver : (id message_id : String) → Keeps R (mark_delivered env id message_id)
  pub fail : (id message : String) → Keeps R (mark_failed env id message)
  pub give_up : (id message : String) → Keeps R (mark_dead_letter env id message)
  pub postpone : (id message : String) (next : Time) → Keeps R (schedule_retry env id message next)
