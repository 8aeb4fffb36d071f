-- ===== src/Service/Process/Flight.antt =====
-- internal/service/service.go, `ProcessChannel`: the claims that are open during the loop.
use insider_one.Prelude.{
  ℕ, ◌+◌, ◌<◌, ◌≤◌, ◌≡◌, ◌≢◌, ◌==◌, String, Option, List, arith, All, All-imp, exists, eq_iff,
  Bool-cases, inl, inr,
}
use insider_one.Domain.{Time, Status, processing, failed, dead_letter, Notification, DeliveryEvent}
use insider_one.Repository.Machine.{Moves, Moves-one, deliver, postpone, give_up, reject}
use insider_one.Repository.Schema.{Row, Database}
use insider_one.Repository.Write.{
  has_id, update_where, set_delivered, set_failed, set_retry, insert_event, record_event,
}
use insider_one.Repository.Lifecycle.{SameIdentity, Evolves, IsWithin, WellFormed}
use insider_one.Repository.Lifecycle.Updates.{
  IsLawful, Evolves-refl, Evolves-trans, update_rows-Lives,
}
use insider_one.Repository.Lifecycle.Inserts.{insert_event-Lives}
use insider_one.Repository.Lifecycle.InFlight.{IsClaimed, InFlight, mark-InFlight}
use insider_one.Runtime.{Env, ◌>>=◌, clock, exec}
use insider_one.Runtime.Keeps.{
  IsPreorder, Keeps, Keeps-pure, Keeps->>=, Keeps-if, Keeps-clock, Keeps-exec, Keeps-ignore,
}
use insider_one.Runtime.From.{KeepsFrom, KeepsFrom-Unchanged, KeepsFrom-exec, Unchanged, unchanged}
use insider_one.Service.Create.{note_event}

-- The tables stay well formed, the rows go on, and the claims on `ns` stay good.
abbrev pub Flies : List Notification → Database → Database → Type 0
Flies ns db db' =
    WellFormed db
    → InFlight ns db.notifications
    → WellFormed db' × InFlight ns db'.notifications × Evolves db.notifications db'.notifications

-- An update that may be made to the row of a claimed `n`.
pub record Marks (n : Notification) (f : Row → Row) : Type 0 where
  pub same : (r : Row) → SameIdentity r (f r)
  pub adds : (r : Row) → r.attempts ≤ (f r).attempts
  pub moves :
      (r : Row)
      → r.status ≡ processing
      → r.attempts ≡ n.attempts
      → r.max_attempts ≡ n.max_attempts
      → Moves r.max_attempts r.status r.attempts (f r).status (f r).attempts
  pub fits :
      (r : Row)
      → r.status ≡ processing
      → r.attempts ≡ n.attempts
      → r.max_attempts ≡ n.max_attempts
      → IsWithin r
      → IsWithin (f r)

pub set_delivered-Marks :
    (n : Notification) (id : String) (now : Time) → Marks n (set_delivered id now)
unfolding set_delivered
set_delivered-Marks n id now = record {
  same = λ r. ground arith;
  adds = λ r. omega arith;
  moves = λ r s a m. rw s (Moves-one r.max_attempts _ _ _ _ (deliver r.attempts));
  fits = λ r s a m h. ground arith;
}

pub set_failed-Marks :
    (n : Notification) (message : String) (now : Time) → Marks n (set_failed failed message now)
unfolding set_failed
set_failed-Marks n message now = record {
  same = λ r. ground arith;
  adds = λ r. omega arith;
  moves = λ r s a m. rw s (Moves-one r.max_attempts _ _ _ _ (reject r.attempts));
  fits = λ r s a m h. ground arith;
}

pub set_dead-Marks :
    (n : Notification) (message : String) (now : Time)
    → n.max_attempts ≤ n.attempts + 1
    → Marks n (set_failed dead_letter message now)
unfolding set_failed
set_dead-Marks n message now spent = record {
  same = λ r. ground arith;
  adds = λ r. omega arith;
  moves = λ r s a m.
      rw s (Moves-one r.max_attempts _ _ _ _ (give_up r.attempts (omega (arith, a, m, spent))));
  fits = λ r s a m h. ground arith;
}

pub set_retry-Marks :
    (n : Notification) (message : String) (next now : Time)
    → n.attempts + 1 < n.max_attempts
    → Marks n (set_retry message next now)
unfolding set_retry
set_retry-Marks n message next now room = record {
  same = λ r. ground arith;
  adds = λ r. omega arith;
  moves = λ r s a m.
      rw s (Moves-one r.max_attempts _ _ _ _ (postpone r.attempts (omega (arith, a, m, room))));
  fits = λ r s a m h. ground arith;
}

module _ (n : Notification) (ns : List Notification) (apart : All (λ m. n.id ≢ m.id) ns) where
  Flies-trans : (a b c : Database) → Flies ns a b → Flies ns b c → Flies ns a c
  Flies-trans a b c h k w i =
      let (w', i', e) = h w i in
      let (w'', i'', e') = k w' i' in (w'', i'', Evolves-trans _ _ _ e e')

  pub flies : IsPreorder (Flies ns)
  flies = record {
    refl_at = λ db w i. (w, i, Evolves-refl db.notifications);
    trans_at = Flies-trans;
  }

  abbrev pub Mine : Database → Type 0
  Mine db = All (IsClaimed n) db.notifications

  IsLawful-mark :
      (f : Row → Row) (rows : List Row)
      → Marks n f
      → All (IsClaimed n) rows
      → All (IsLawful (has_id n.id) f) rows
  IsLawful-mark f rows h k =
      All-imp (IsClaimed n) (IsLawful (has_id n.id) f) rows
        (λ r c. record {
          attempts = h.adds r;
          moves = λ e. let (s, a, m) = c ((eq_iff r.id n.id).0 e) in h.moves r s a m;
          settled = λ e closed. ground (arith, eq_iff r.id n.id, c);
          within = λ e v. let (s, a, m) = c ((eq_iff r.id n.id).0 e) in h.fits r s a m v;
        })
        k

  update-Flies :
      (f : Row → Row) (db : Database)
      → Marks n f
      → Mine db
      → Flies ns db (update_where (has_id n.id) f db).1
  update-Flies f db h mine w i =
      let (w', e) =
        update_rows-Lives (has_id n.id) f h.same db (λ _. IsLawful-mark f db.notifications h mine)
          w in
      (w', mark-InFlight n f h.same ns db.notifications apart i, e)

  module _ (env : Env) where
    -- A Mark method: a reading of the clock, and the update.
    pub mark-Flies :
        (f : Time → Row → Row)
        → ((now : Time) → Marks n (f now))
        → KeepsFrom Mine
            (Flies ns)
            (clock env >>= λ now. exec env (update_where (has_id n.id) (f (env.stored now))))
    mark-Flies f h =
        KeepsFrom-Unchanged Mine (Flies ns) flies (Keeps-clock Unchanged unchanged env) (λ now.
          KeepsFrom-exec Mine (Flies ns) flies env _
            (λ db. update-Flies (f (env.stored now)) db (h (env.stored now))))

    event-Flies :
        (event : DeliveryEvent) (db : Database) → Flies ns db (insert_event env event db).1
    unfolding insert_event
    event-Flies event db w i = let (w', e) = insert_event-Lives env event db w in (w', kept, e)
      where
        kept : InFlight ns (insert_event env event db).1.notifications
        kept = elim (Bool-cases (exists (has_id event.notification_id) db.notifications)) [
          | inl e ↦ rw e i
          | inr e ↦ rw e i
        ]

    record_event-Flies : (event : DeliveryEvent) → Keeps (Flies ns) (record_event env event)
    unfolding record_event
    record_event-Flies event =
        Keeps->>= (Flies ns) flies
          (Keeps-if (Flies ns) flies (event.created_at == 0) (Keeps-clock (Flies ns) flies env)
            (Keeps-pure (Flies ns) flies event.created_at))
          (λ t. Keeps-exec (Flies ns) flies env _ (event-Flies (record event { created_at = t })))

    pub note_event-Flies :
        (m : Notification) (status : Status) (reason : String) (attempt : ℕ) (next : Option Time)
        (provider_status : ℕ) (message_id : String)
        → Keeps (Flies ns) (note_event env m status reason attempt next provider_status message_id)
    unfolding note_event
    note_event-Flies m status reason attempt next provider_status message_id =
        Keeps->>= (Flies ns) flies (Keeps-clock (Flies ns) flies env)
          (λ now. Keeps-ignore (Flies ns) flies (record_event-Flies _))
