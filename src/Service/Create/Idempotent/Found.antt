-- ===== src/Service/Create/Idempotent/Found.antt =====
-- internal/service/service.go, `CreateNotification`: the row that is found under a key.
use mathlib.Core.Path.{subst}
use insider_one.Prelude.{
  suc, ◌≡◌, ◌≢◌, refl, ap, String, Bool, true, false, ◌&&◌, Option, none, some, List, [], ◌∷◌, ◌++◌,
  find, exists, str_eq, eq_iff, arith,
}
use insider_one.Domain.{Time, NotificationRequest, Notification}
use insider_one.Repository.Schema.{
  Row, Database, tenant_id, key_is, null_string, notification_row, scan_notification,
}
use insider_one.Repository.Read.{one_row, map_option, in_tenant, get_by_idempotency_key}
use insider_one.Repository.Write.{key_taken, insert_row, insert_loop, insert_notifications}
use insider_one.Repository.Write.Atomic.{with_rows, insert_notifications-AllOrNothing}
use insider_one.Runtime.{
  Result, ok, err, Fault, taken, refused, lost, Error, Env, World, under_fault, view_under_fault,
  tx_exec, begin_tx, commit, exec, query,
}
use insider_one.Runtime.After.{After, After->>=}
use insider_one.Service.Create.{build_notification}
use insider_one.Service.Create.Idempotent.{row_by_key, not_empty}

-- The first row under the key is that of the notification.
abbrev pub Finds : String → String → Notification → World → Type 0
Finds key tenant n w = (row : Row) × (row_by_key key tenant w ≡ some row) × (row.id ≡ n.id)

pub not_ok : {A : Type 0} (e : Error) (a : A) → Path (Result A) (err e) (ok a) → ⊥
not_ok e a h = cc

find-append :
    (p q : Row → Bool) (rows : List Row) (x : Row)
    → ((r : Row) → p r ≡ true → q r ≡ true)
    → exists q rows ≡ false
    → p x ≡ true
    → find p (rows ++ x ∷ []) ≡ some x
find-append p q [] x h e t = rw t refl
find-append p q (r ∷ rows) x h e t = ground (arith, h r, find-append p q rows x h)

-- A row behind rows without its key is the first under it.
found_behind :
    (key tenant : String) (row : Row) (rows : List Row) (w : World)
    → row.tenant_id ≡ tenant_id tenant
    → row.idempotency_key ≡ some key
    → key_taken row.tenant_id row.idempotency_key rows ≡ false
    → w.db.notifications ≡ rows ++ row ∷ []
    → row_by_key key tenant w ≡ some row
found_behind key tenant row rows w t k free e =
    let none_has : key_taken (tenant_id tenant) (some key) rows ≡ false =
      subst (λ o. key_taken (tenant_id tenant) o rows ≡ false) k
        (subst (λ u. key_taken u row.idempotency_key rows ≡ false) t free) in
    let own : (key_is row.idempotency_key key && in_tenant (tenant_id tenant) row) ≡ true =
      rw k (rw t (ground (arith, eq_iff key key, eq_iff (tenant_id tenant) (tenant_id tenant)))) in
    rw e (
      find-append (λ r. key_is r.idempotency_key key && in_tenant (tenant_id tenant) r)
        (λ r. str_eq r.tenant_id (tenant_id tenant) && key_is r.idempotency_key key) rows row
        (λ r h. ground arith) none_has own)

module _ (env : Env) (key tenant : String) where
  scanned-Finds :
      (existing : Notification) (w : World) (o : Option Row)
      → row_by_key key tenant w ≡ o
      → one_row env.no_rows (map_option scan_notification o) ≡ ok existing
      → Finds key tenant existing w
  unfolding scan_notification
  scanned-Finds existing w none e h = absurd (not_ok env.no_rows existing h)
  scanned-Finds existing w (some row) e h =
      let same : scan_notification row ≡ existing = cc in
      (row, e, ap (λ (m : Notification). m.id) same)

  faulty-Finds :
      (f : Fault) (w : World) (existing : Notification)
      → (under_fault f
          (one_row env.no_rows (map_option scan_notification (row_by_key key tenant w)), w.db)
          w).0
        ≡ ok existing
      → Finds key tenant existing
          (under_fault f
            (one_row env.no_rows (map_option scan_notification (row_by_key key tenant w)), w.db)
            w).1
  unfolding under_fault
  faulty-Finds taken w existing h = scanned-Finds existing w (row_by_key key tenant w) refl h
  faulty-Finds (refused e) w existing h = absurd (not_ok e existing h)
  faulty-Finds (lost e) w existing h = absurd (not_ok e existing h)

  pub get-Finds : (w : World) → After (Finds key tenant) (get_by_idempotency_key env key tenant) w
  unfolding get_by_idempotency_key query exec
  get-Finds w existing h =
      faulty-Finds (env.fault w.tick) (record w { tick = suc w.tick }) existing h

module _ (env : Env) where
  begun :
      (f : Fault) (w : World) (tx : Database)
      → (under_fault f (ok w.db, w.db) w).0 ≡ ok tx
      → tx ≡ w.db
  unfolding under_fault
  begun taken w tx h = cc
  begun (refused e) w tx h = absurd (not_ok e tx h)
  begun (lost e) w tx h = absurd (not_ok e tx h)

  run_row :
      (f : Fault) (r : Result (Unit {0})) (d : Database) (a : Unit {0} × Database)
      → view_under_fault f (r, d) ≡ ok a
      → r ≡ ok tt
  unfolding view_under_fault
  run_row taken (ok u) d a h = refl
  run_row taken (err e) d a h = absurd (not_ok e a h)
  run_row (refused e) r d a h = absurd (not_ok e a h)
  run_row (lost e) r d a h = absurd (not_ok e a h)

  insert_row-key :
      (row : Row) (tx : Database)
      → (insert_row env row tx).0 ≡ ok tt
      → key_taken row.tenant_id row.idempotency_key tx.notifications ≡ false
  unfolding insert_row
  insert_row-key row tx h = ground arith

  -- No row has the key of the notification.
  abbrev KeyFree : Notification → Database → Type 0
  KeyFree n db =
      key_taken (notification_row env.stored n).tenant_id
        (notification_row env.stored n).idempotency_key db.notifications
      ≡ false

  loop-key :
      (n : Notification) (tx : Database) (w : World)
      → After (λ tx' w'. KeyFree n tx) (insert_loop env (n ∷ []) tx) w
  unfolding insert_loop tx_exec
  loop-key n tx w =
      let row = notification_row env.stored n in
      After->>= (λ tx' w'. KeyFree n tx) _ (tx_exec env (insert_row env row) tx) w
        (λ a e b e'.
          insert_row-key row tx
            (run_row (env.fault w.tick) (insert_row env row tx).0 (insert_row env row tx).1 a e))

  -- A notification that has been inserted alone has a key that no row had before.
  insert-key :
      (n : Notification) (w : World)
      → After (λ done w'. KeyFree n w.db) (insert_notifications env (n ∷ [])) w
  unfolding insert_notifications begin_tx query exec
  insert-key n w =
      After->>= (λ done w'. KeyFree n w.db) _ (begin_tx env) w
        (λ tx e.
          let same : tx ≡ w.db = begun (env.fault w.tick) (record w { tick = suc w.tick }) tx e in
          After->>= (λ done w'. KeyFree n w.db) (commit env) (insert_loop env (n ∷ []) tx)
            (begin_tx env w).1
            (λ tx' e' a e''. rw (← same) (loop-key n tx (begin_tx env w).1 tx' e')))

  -- It is found under its key.
  pub insert-Finds :
      (key tenant id batch_id correlation_id : String) (now : Time) (req : NotificationRequest)
      (w : World)
      → key ≢ ""
      → let n = build_notification id tenant batch_id correlation_id key now req in
        After (λ done w'. Finds key tenant n w') (insert_notifications env (n ∷ [])) w
  unfolding build_notification notification_row null_string with_rows
  insert-Finds key tenant id batch_id correlation_id now req w k done e =
      let n = build_notification id tenant batch_id correlation_id key now req in
      let free = insert-key n w done e in
      let added : (insert_notifications env (n ∷ []) w).1.db ≡ with_rows env (n ∷ []) w.db =
        (insert_notifications-AllOrNothing env (n ∷ []) w).1 e in
      (
        notification_row env.stored n,
        found_behind key tenant (notification_row env.stored n) w.db.notifications
            (insert_notifications env (n ∷ []) w).1 refl (rw (not_empty k) refl) free
            (ap (λ (d : Database). d.notifications) added),
        refl,
      )
