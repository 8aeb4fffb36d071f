-- ===== src/Service/Create/Idempotent/Effects.antt =====
-- internal/service/service.go, `CreateNotification`: what follows the INSERT leaves the rows alone.
use insider_one.Prelude.{String, ◌≡◌, refl, ◌∙◌, ◌==◌, inl, inr, Bool-cases, exists}
use insider_one.Domain.{Time, Notification, DeliveryEvent}
use insider_one.Repository.Schema.{Database, tenant_id}
use insider_one.Repository.Write.{
  has_id, request_taken, insert_event, insert_request, record_event, upsert_request_mapping,
}
use insider_one.Runtime.{Env}
use insider_one.Runtime.Keeps.{
  IsPreorder, Keeps, Keeps-pure, Keeps->>=, Keeps-if, Keeps-ignore, Keeps-clock, Keeps-exec,
}
use insider_one.Service.Create.{note_event, note_accepted}

-- The notifications are as they were.
abbrev pub SameRows : Database → Database → Type 0
SameRows db db' = db'.notifications ≡ db.notifications

pub same_rows : IsPreorder SameRows
same_rows = record { refl_at = λ db. refl; trans_at = λ a b c p q. q ∙ p }

module _ (env : Env) where
  event-SameRows :
      (event : DeliveryEvent) (db : Database) → SameRows db (insert_event env event db).1
  unfolding insert_event
  event-SameRows event db =
      elim (Bool-cases (exists (has_id event.notification_id) db.notifications)) [
        | inl e ↦ rw e refl
        | inr e ↦ rw e refl
      ]

  record_event-SameRows : (event : DeliveryEvent) → Keeps SameRows (record_event env event)
  unfolding record_event
  record_event-SameRows event =
      Keeps->>= SameRows same_rows
        (Keeps-if SameRows same_rows (event.created_at == 0) (Keeps-clock SameRows same_rows env)
          (Keeps-pure SameRows same_rows event.created_at))
        (λ t.
          Keeps-exec SameRows same_rows env _ (event-SameRows (record event { created_at = t })))

  pub note_accepted-SameRows : (n : Notification) → Keeps SameRows (note_accepted env n)
  unfolding note_accepted note_event
  note_accepted-SameRows n =
      Keeps->>= SameRows same_rows (Keeps-clock SameRows same_rows env)
        (λ now. Keeps-ignore SameRows same_rows (record_event-SameRows _))

  request-SameRows :
      (key batch_id tenant : String) (now : Time) (db : Database)
      → SameRows db (insert_request env key batch_id tenant now db).1
  unfolding insert_request
  request-SameRows key batch_id tenant now db =
      elim (Bool-cases (exists (request_taken tenant key) db.requests)) [
        | inl e ↦ rw e refl
        | inr e ↦ rw e refl
      ]

  pub mapping-SameRows :
      (key batch_id tenant : String)
      → Keeps SameRows (upsert_request_mapping env key batch_id tenant)
  unfolding upsert_request_mapping
  mapping-SameRows key batch_id tenant =
      Keeps->>= SameRows same_rows (Keeps-clock SameRows same_rows env) (λ now.
        Keeps-exec SameRows same_rows env _ (request-SameRows key batch_id (tenant_id tenant) now))
