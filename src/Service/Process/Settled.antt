-- ===== src/Service/Process/Settled.antt =====
-- internal/service/service.go, `ProcessChannel` in calm surroundings: one Mark method and its event.

use insider_one.Prelude.{
  ℕ, suc, ◌+◌, ◌≡◌, ◌≢◌, refl, inl, inr, String, false, Option, List, [], ◌∷◌, All, arith, ◌==◌,
  eq_iff, exists, Bool-cases,
}
use insider_one.Domain.{Time, Status, processing, failed, dead_letter, Notification, DeliveryEvent}
use insider_one.Provider.{SendResult}
use insider_one.Repository.Schema.{Row, Database}
use insider_one.Repository.Write.{
  has_id, update_rows, update_where, set_delivered, set_failed, set_retry, insert_event,
  record_event, mark_delivered, mark_failed, mark_dead_letter, schedule_retry,
}
use insider_one.Runtime.{Env, World, Fallible, ◌>>=◌, ignore, clock, exec, ask}
use insider_one.Runtime.Keeps.{
  IsPreorder, Keeps, Keeps-if, Keeps-pure, Keeps-clock, Keeps-exec, Keeps->>=,
}
use insider_one.Runtime.Steps.{tick_on}
use insider_one.Runtime.Ends.{
  Ends, IsCalm, Ends->>=, Ends-weaken, Ends-clock, Ends-exec, Ends-ignore,
}
use insider_one.Service.Create.{note_event}
use insider_one.Service.Rules.{backoff, backoff_delay, jittered}
use insider_one.Service.Process.{
  Outcome, accepted, retry, exhausted, rejected, failure_message, settle,
}

-- No row with this id is `processing`.
abbrev pub IsSettled : String → Database → Type 0
IsSettled id db = All (λ (r : Row). r.id ≡ id → r.status ≢ processing) db.notifications

-- What is settled stays settled.
abbrev pub KeepsSettled : Database → Database → Type 0
KeepsSettled db db' = (id : String) → IsSettled id db → IsSettled id db'

settled : IsPreorder KeepsSettled
settled = record { refl_at = λ db id h. h; trans_at = λ a b c f g id h. g id (f id h) }

-- An assignment that takes a row out of `processing`.
abbrev Settles : (Row → Row) → Type 0
Settles f = (r : Row) → ((f r).id ≡ r.id) × ((f r).status ≢ processing)

module _ (id : String) (f : Row → Row) (lawful : Settles f) where
  update-kept :
      (other : String) (rows : List Row)
      → All (λ (r : Row). r.id ≡ other → r.status ≢ processing) rows
      → All (λ (r : Row). r.id ≡ other → r.status ≢ processing) (update_rows (has_id id) f rows)
  update-kept other [] h = tt
  update-kept other (r ∷ rows) h = (
    elim (Bool-cases (has_id id r)) [ inl e ↦ rw e (λ _. (lawful r).1) | inr e ↦ rw e h.0 ],
    update-kept other rows h.1,
  )

  update-done :
      (rows : List Row)
      → All (λ (r : Row). r.id ≡ id → r.status ≢ processing) (update_rows (has_id id) f rows)
  update-done [] = tt
  update-done (r ∷ rows) = (
    elim (Bool-cases (has_id id r)) [
      | inl e ↦ rw e (λ _. (lawful r).1)
      | inr e ↦ rw e (λ p. absurd (not_itself e p))
    ],
    update-done rows,
  )
    where
      not_itself : has_id id r ≡ false → r.id ≡ id → ⊥
      not_itself e p = ground (arith, eq_iff r.id id)

module _ (env : Env) (calm : IsCalm env) where
  -- After a Mark method, whose error is dropped.
  marked :
      (id : String) (f : Time → Row → Row) (lawful : (t : Time) → Settles (f t)) (w : World)
      → Ends
          (λ _ w'. KeepsSettled w.db w'.db × IsSettled id w'.db)
          (ignore (clock env >>= λ now. exec env (update_where (has_id id) (f now))) w)
  marked id f lawful w = Ends-ignore _ _ w (
      Ends->>= _ _ (clock env) w (
        Ends-clock env calm w _ (
          Ends-exec env calm (tick_on w) _ (update_where (has_id id) (f (env.now w.tick))) (
            (λ other h.
                update-kept id (f (env.now w.tick)) (lawful (env.now w.tick)) other
                  w.db.notifications h),
            update-done id (f (env.now w.tick)) (lawful (env.now w.tick)) w.db.notifications,
          ))))

  insert_event-KeepsSettled :
      (e : DeliveryEvent) (db : Database) → KeepsSettled db (insert_event env e db).1
  unfolding insert_event
  insert_event-KeepsSettled e db id h =
      elim (Bool-cases (exists (has_id e.notification_id) db.notifications)) [
        | inl p ↦ rw p h
        | inr p ↦ rw p h
      ]

  record_event-KeepsSettled : (e : DeliveryEvent) → Keeps KeepsSettled (record_event env e)
  unfolding record_event
  record_event-KeepsSettled e =
      Keeps->>= _ settled
        (Keeps-if _ settled (e.created_at == 0) (Keeps-clock _ settled env)
          (Keeps-pure _ settled e.created_at))
        (λ at. Keeps-exec _ settled env _ (λ db. insert_event-KeepsSettled _ db))

  -- Recording an event changes no status, and its error is dropped.
  noted :
      (n : Notification) (status : Status) (reason : String) (attempts : ℕ) (next : Option Time)
      (code : ℕ) (message : String) (w : World)
      → Ends
          (λ _ w'. KeepsSettled w.db w'.db)
          (note_event env n status reason attempts next code message w)
  unfolding note_event
  noted n status reason attempts next code message w =
      Ends->>= _ _ (clock env) w
        (Ends-clock env calm w _ (ignored_db _ (tick_on w) (record_event-KeepsSettled _)))
    where
      ignored_db :
          (m : Fallible (Unit {0})) (w : World)
          → Keeps KeepsSettled m
          → Ends (λ _ w'. KeepsSettled w.db w'.db) (ignore m w)
      ignored_db m w k = unfold ignore in k.at w

  set_delivered-Settles : (message : String) (t : Time) → Settles (set_delivered message t)
  unfolding set_delivered
  set_delivered-Settles message t r = (refl, λ h. ground arith)

  set_failed-Settles : (message : String) (t : Time) → Settles (set_failed failed message t)
  unfolding set_failed
  set_failed-Settles message t r = (refl, λ h. ground arith)

  set_dead-Settles : (message : String) (t : Time) → Settles (set_failed dead_letter message t)
  unfolding set_failed
  set_dead-Settles message t r = (refl, λ h. ground arith)

  set_retry-Settles : (message : String) (next t : Time) → Settles (set_retry message next t)
  unfolding set_retry
  set_retry-Settles message next t r = (refl, λ h. ground arith)

  -- A mark and the event behind it.
  marked_and_noted :
      (n : Notification) (f : Time → Row → Row) (lawful : (t : Time) → Settles (f t))
      (status : Status) (reason : String) (attempts : ℕ) (next : Option Time) (code : ℕ)
      (message : String) (w : World)
      → Ends
          (λ _ w'. KeepsSettled w.db w'.db × IsSettled n.id w'.db)
          ((ignore (clock env >>= λ now. exec env (update_where (has_id n.id) (f now))) >>= λ _.
              note_event env n status reason attempts next code message)
            w)
  marked_and_noted n f lawful status reason attempts next code message w =
      let mark = ignore (clock env >>= λ now. exec env (update_where (has_id n.id) (f now))) in
      Ends->>= (λ _ w'. KeepsSettled w.db w'.db × IsSettled n.id w'.db)
        (λ _. note_event env n status reason attempts next code message) mark w
        (Ends-weaken _ _ (mark w).0 (mark w).1
          (λ _ h.
            Ends-weaken _ _ (note_event env n status reason attempts next code message (mark w).1).0
              (note_event env n status reason attempts next code message (mark w).1).1
              (λ _ k. (λ id p. k id (h.0 id p), k n.id h.1))
              (noted n status reason attempts next code message (mark w).1))
          (marked n.id f lawful w))

  pub settle-Settled :
      (o : Outcome) (n : Notification) (r : SendResult) (start : Time) (w : World)
      → Ends (λ _ w'. KeepsSettled w.db w'.db × IsSettled n.id w'.db) (settle env o n r start w)
  unfolding settle mark_delivered mark_failed mark_dead_letter schedule_retry backoff ask clock
      ◌>>=◌
  settle-Settled accepted n r start w =
      marked_and_noted n (λ t. set_delivered r.response.message_id (env.stored t))
        (λ t. set_delivered-Settles r.response.message_id (env.stored t)) _ _ _ _ _ _ (tick_on w)
  settle-Settled retry n r start w =
      let next = env.now w.tick + jittered (backoff_delay n.attempts) (env.random (suc w.tick) 1) in
      marked_and_noted n (λ t. set_retry (failure_message r) (env.stored next) (env.stored t))
        (λ t. set_retry-Settles (failure_message r) (env.stored next) (env.stored t)) _ _ _ _ _ _
        (tick_on (tick_on w))
  settle-Settled exhausted n r start w =
      marked_and_noted n (λ t. set_failed dead_letter (failure_message r) (env.stored t))
        (λ t. set_dead-Settles (failure_message r) (env.stored t)) _ _ _ _ _ _ w
  settle-Settled rejected n r start w =
      marked_and_noted n (λ t. set_failed failed (failure_message r) (env.stored t))
        (λ t. set_failed-Settles (failure_message r) (env.stored t)) _ _ _ _ _ _ w
