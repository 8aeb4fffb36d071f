-- ===== src/Repository/Lifecycle/Inserts.antt =====
-- internal/repository/postgres.go: the INSERT statements and the lifecycle.
use insider_one.Prelude.{
  ℕ, suc, ◌<◌, String, ◌≡◌, refl, true, false, Option, none, some, List, [], ◌∷◌, ◌++◌, arith, All,
  exists, All-imp, All-append, All-of-exists, Pairs-snoc, eq_iff, Bool-cases, inl, inr,
}
use insider_one.Domain.{Time, Notification, DeliveryEvent}
use insider_one.Repository.Schema.{Row, EventRow, RequestRow, Database, notification_row, event_row}
use insider_one.Repository.Write.{
  has_id, key_taken, request_taken, insert_row, insert_event, insert_request,
}
use insider_one.Repository.Claim.{is_waiting}
use insider_one.Repository.Machine.{stay}
use insider_one.Repository.Lifecycle.{
  IsWithin, IsBorn, IdsApart, KeysApart, RequestsApart, IsOwned, WellFormed, Lives,
}
use insider_one.Repository.Lifecycle.Updates.{Evolves-refl, Evolves-append}
use insider_one.Runtime.{Env}

-- A notification that has not been tried.
pub record IsFresh (n : Notification) : Type 0 where
  pub untried : n.attempts ≡ 0
  pub triable : 0 < n.max_attempts
  pub waiting : is_waiting n.status ≡ true

IdsApart-of-has_id : (row r : Row) → has_id row.id r ≡ false → IdsApart r row
IdsApart-of-has_id row r h e = ground (arith, eq_iff r.id row.id)

KeysApart-of-key_taken :
    (tenant : String) (key : Option String) (rows : List Row) (row : Row)
    → row.tenant_id ≡ tenant
    → row.idempotency_key ≡ key
    → key_taken tenant key rows ≡ false
    → All (λ r. KeysApart r row) rows
KeysApart-of-key_taken tenant none [] row t e h = tt
KeysApart-of-key_taken tenant none (r ∷ rows) row t e h =
    (λ k p a b. cc, KeysApart-of-key_taken tenant none rows row t e h)
KeysApart-of-key_taken tenant (some key) rows row t e h =
    All-of-exists (λ r. KeysApart r row) _ rows
      (λ r free k p a b. ground (arith, eq_iff r.tenant_id tenant, eq_iff k key)) h

exists-append :
    (id : String) (rows more : List Row)
    → exists (has_id id) rows ≡ true
    → exists (has_id id) (rows ++ more) ≡ true
exists-append id [] more h = cc
exists-append id (r ∷ rows) more h = ground (arith, exists-append id rows more)

module _ (env : Env) where
  inserted-WellFormed :
      (row : Row) (db : Database)
      → IsWithin row
      → IsBorn row
      → WellFormed db
      → exists (has_id row.id) db.notifications ≡ false
      → key_taken row.tenant_id row.idempotency_key db.notifications ≡ false
      → WellFormed (record db { notifications = db.notifications ++ row ∷ [] })
  inserted-WellFormed row db fresh born h new_id new_key = record {
    ids = Pairs-snoc IdsApart db.notifications row h.ids (
        All-of-exists (λ r. IdsApart r row) (has_id row.id) db.notifications
          (IdsApart-of-has_id row) new_id);
    keys = Pairs-snoc KeysApart db.notifications row h.keys (
        KeysApart-of-key_taken row.tenant_id row.idempotency_key db.notifications row refl refl
          new_key);
    within = All-append IsWithin db.notifications (row ∷ []) h.within (fresh, tt);
    born = All-append IsBorn db.notifications (row ∷ []) h.born (born, tt);
    owned =
        All-imp (IsOwned db.notifications) (IsOwned (db.notifications ++ row ∷ [])) db.events
          (λ e. exists-append e.notification_id db.notifications (row ∷ [])) h.owned;
    numbered = h.numbered;
    below_next = h.below_next;
    requests = h.requests;
  }

  fresh-IsWithin : (n : Notification) → IsFresh n → IsWithin (notification_row env.stored n)
  unfolding notification_row
  fresh-IsWithin n h = ground arith

  fresh-IsBorn : (n : Notification) → IsFresh n → IsBorn (notification_row env.stored n)
  unfolding notification_row
  fresh-IsBorn n h = (n.status, h.waiting, rw h.untried (stay n.status 0))

  pub insert_row-Lives :
      (n : Notification) (db : Database)
      → IsFresh n
      → Lives db (insert_row env (notification_row env.stored n) db).1
  unfolding insert_row
  insert_row-Lives n db fresh h =
      let row = notification_row env.stored n in
      elim (Bool-cases (exists (has_id row.id) db.notifications)) [
        | inl e ↦ rw e (h, Evolves-refl db.notifications)
        | inr e ↦
            rw e (elim (Bool-cases (key_taken row.tenant_id row.idempotency_key db.notifications)) [
              | inl e' ↦ rw e' (h, Evolves-refl db.notifications)
              | inr e' ↦ rw e' (
                inserted-WellFormed row db (fresh-IsWithin n fresh) (fresh-IsBorn n fresh) h e e',
                Evolves-append db.notifications (row ∷ []),
              )
            ])
      ]

  event-WellFormed :
      (event : DeliveryEvent) (db : Database)
      → WellFormed db
      → exists (has_id event.notification_id) db.notifications ≡ true
      → WellFormed (record db {
        events = db.events ++ event_row env.stored db.next_event_id event ∷ [];
        next_event_id = suc db.next_event_id;
      })
  unfolding event_row
  event-WellFormed event db h there = record {
    ids = h.ids;
    keys = h.keys;
    within = h.within;
    born = h.born;
    owned = All-append (IsOwned db.notifications) db.events _ h.owned (there, tt);
    numbered = Pairs-snoc (λ (e f : EventRow). e.id < f.id) db.events _ h.numbered h.below_next;
    below_next =
        All-append (λ (e : EventRow). e.id < suc db.next_event_id) db.events _
          (All-imp (λ (e : EventRow). e.id < db.next_event_id)
            (λ (e : EventRow). e.id < suc db.next_event_id) db.events (λ e p. omega arith)
            h.below_next)
          (omega arith, tt);
    requests = h.requests;
  }

  skipped-WellFormed :
      (db : Database)
      → WellFormed db
      → WellFormed (record db { next_event_id = suc db.next_event_id })
  skipped-WellFormed db h = record {
    ids = h.ids;
    keys = h.keys;
    within = h.within;
    born = h.born;
    owned = h.owned;
    numbered = h.numbered;
    below_next =
        All-imp (λ (e : EventRow). e.id < db.next_event_id)
          (λ (e : EventRow). e.id < suc db.next_event_id) db.events (λ e p. omega arith)
          h.below_next;
    requests = h.requests;
  }

  pub insert_event-Lives :
      (event : DeliveryEvent) (db : Database) → Lives db (insert_event env event db).1
  unfolding insert_event
  insert_event-Lives event db h =
      elim (Bool-cases (exists (has_id event.notification_id) db.notifications)) [
        | inl e ↦ rw e (event-WellFormed event db h e, Evolves-refl db.notifications)
        | inr e ↦ rw e (skipped-WellFormed db h, Evolves-refl db.notifications)
      ]

  RequestsApart-of-taken :
      (key tenant batch_id : String) (id : ℕ) (at : Time) (r : RequestRow)
      → request_taken tenant key r ≡ false
      → RequestsApart r (record {
        id = id;
        tenant_id = tenant;
        idempotency_key = some key;
        batch_id = batch_id;
        created_at = at;
      })
  RequestsApart-of-taken key tenant batch_id id at r free k p a b =
      ground (arith, eq_iff r.tenant_id tenant, eq_iff k key)

  pub insert_request-Lives :
      (key batch_id tenant : String) (now : Time) (db : Database)
      → Lives db (insert_request env key batch_id tenant now db).1
  unfolding insert_request
  insert_request-Lives key batch_id tenant now db h =
      elim (Bool-cases (exists (request_taken tenant key) db.requests)) [
        | inl e ↦ rw e (
          record {
            ids = h.ids;
            keys = h.keys;
            within = h.within;
            born = h.born;
            owned = h.owned;
            numbered = h.numbered;
            below_next = h.below_next;
            requests = h.requests;
          },
          Evolves-refl db.notifications,
        )
        | inr e ↦ rw e (
          record {
            ids = h.ids;
            keys = h.keys;
            within = h.within;
            born = h.born;
            owned = h.owned;
            numbered = h.numbered;
            below_next = h.below_next;
            requests = Pairs-snoc RequestsApart db.requests _ h.requests (
                All-of-exists _ (request_taken tenant key) db.requests
                  (RequestsApart-of-taken key tenant batch_id db.next_request_id (env.stored now))
                  e);
          },
          Evolves-refl db.notifications,
        )
      ]
