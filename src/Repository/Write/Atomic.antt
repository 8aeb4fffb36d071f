-- ===== src/Repository/Write/Atomic.antt =====
-- `InsertNotifications`: one transaction for all the rows.

use insider_one.Prelude.{
  suc, ◌≡◌, refl, sym, ◌∙◌, ap, ◌⊎◌, inl, inr, List, [], ◌∷◌, ◌++◌, map, arith,
}
use insider_one.Domain.{Notification}
use insider_one.Repository.Schema.{Row, Database, notification_row}
use insider_one.Repository.Write.{insert_row, insert_loop, insert_notifications}
use insider_one.Runtime.{
  Result, ok, err, Fault, taken, refused, lost, Env, World, ◌>>=◌, under_fault, view_under_fault,
  tx_exec, begin_tx, commit, exec, query,
}

++-nil : (xs : List Row) → xs ++ [] ≡ xs
++-nil [] = refl
++-nil (x ∷ xs) = ap (λ l. x ∷ l) (++-nil xs)

snoc-++ : (xs : List Row) (y : Row) (zs : List Row) → (xs ++ y ∷ []) ++ zs ≡ xs ++ y ∷ zs
snoc-++ [] y zs = refl
snoc-++ (x ∷ xs) y zs = ap (λ l. x ∷ l) (snoc-++ xs y zs)

module _ (env : Env) where
  -- The tables with the rows of `ns` behind the others.
  unfoldable pub with_rows : List Notification → Database → Database
  with_rows ns db = record db {
    notifications = db.notifications ++ map (notification_row env.stored) ns;
  }

  -- What the loop does to the tables and to its view.
  abbrev Loops : List Notification → Database → World → Result Database × World → Type 0
  Loops ns tx w (r, w') = (w'.db ≡ w.db) × ((tx' : Database) → r ≡ ok tx' → tx' ≡ with_rows ns tx)

  insert_row-appends :
      (row : Row) (tx : Database)
      → (insert_row env row tx).0 ≡ ok tt
      → (insert_row env row tx).1 ≡ record tx { notifications = tx.notifications ++ row ∷ [] }
  unfolding insert_row
  insert_row-appends row tx h = ground arith

  with_rows-cons :
      (n : Notification) (ns : List Notification) (tx tx₁ : Database)
      → tx₁ ≡ record tx { notifications = tx.notifications ++ notification_row env.stored n ∷ [] }
      → with_rows ns tx₁ ≡ with_rows (n ∷ ns) tx
  unfolding with_rows
  with_rows-cons n ns tx tx₁ h =
      ap {A = Database} {B = Database}
        (λ d. record d { notifications = d.notifications ++ map (notification_row env.stored) ns })
        h
      ∙ ap (λ rows. record tx { notifications = rows })
          (snoc-++ tx.notifications (notification_row env.stored n)
            (map (notification_row env.stored) ns))

  after_row :
      (n : Notification) (ns : List Notification) (tx tx₁ : Database) (f : Fault)
      (r : Result (Unit {0})) (w₀ w : World)
      → w.db ≡ w₀.db
      → (r ≡ ok tt
          → tx₁
            ≡ record tx { notifications = tx.notifications ++ notification_row env.stored n ∷ [] })
      → ((tx' : Database) → Loops ns tx' w (insert_loop env ns tx' w))
      → Loops (n ∷ ns) tx w₀ (elim (view_under_fault f (r, tx₁)) as (λ _. Result Database × World) [
        | ok a ↦ insert_loop env ns a.1 w
        | err e ↦ (err e, w)
      ])
  unfolding view_under_fault
  after_row n ns tx tx₁ taken (ok tt) w₀ w same h next =
      let (s, p) = next tx₁ in (s ∙ same, λ tx' e. p tx' e ∙ with_rows-cons n ns tx tx₁ (h refl))
  after_row n ns tx tx₁ taken (err x) w₀ w same h next = (same, λ tx' e. cc)
  after_row n ns tx tx₁ (refused x) r w₀ w same h next = (same, λ tx' e. cc)
  after_row n ns tx tx₁ (lost x) r w₀ w same h next = (same, λ tx' e. cc)

  insert_loop-Loops :
      (ns : List Notification) (tx : Database) (w : World) → Loops ns tx w (insert_loop env ns tx w)
  unfolding insert_loop with_rows ◌>>=◌ tx_exec
  insert_loop-Loops [] tx w = (
    refl,
    λ tx' e.
        let q : tx ≡ tx' = cc in
        sym q ∙ ap (λ rows. record tx { notifications = rows }) (sym (++-nil tx.notifications)),
  )
  insert_loop-Loops (n ∷ ns) tx w =
      let row = notification_row env.stored n in
      let w' = record w { tick = suc w.tick } in
      after_row n ns tx (insert_row env row tx).1 (env.fault w.tick) (insert_row env row tx).0 w w'
        refl (insert_row-appends row tx) (λ tx'. insert_loop-Loops ns tx' w')

  -- All the rows, or the tables as they were; and all the rows where no error is returned.
  abbrev pub AllOrNothing : List Notification → Database → Result (Unit {0}) × World → Type 0
  AllOrNothing ns db (r, w) =
      ((w.db ≡ db) ⊎ (w.db ≡ with_rows ns db)) × (r ≡ ok tt → w.db ≡ with_rows ns db)

  after_loop :
      (ns : List Notification) (db : Database) (r : Result Database) (w : World) (f : Fault)
      → w.db ≡ db
      → ((tx : Database) → r ≡ ok tx → tx ≡ with_rows ns db)
      → AllOrNothing ns db (elim r as (λ _. Result (Unit {0}) × World) [
        | ok tx ↦ under_fault f (ok tt, tx) (record w { tick = suc w.tick })
        | err e ↦ (err e, w)
      ])
  unfolding under_fault
  after_loop ns db (ok tx) w taken same h = (inr (h tx refl), λ _. h tx refl)
  after_loop ns db (ok tx) w (refused x) same h = (inl same, λ e. cc)
  after_loop ns db (ok tx) w (lost x) same h = (inr (h tx refl), λ e. cc)
  after_loop ns db (err x) w f same h = (inl same, λ e. cc)

  after_begin :
      (ns : List Notification) (w : World) (f : Fault)
      → AllOrNothing ns w.db
          (elim (under_fault f (ok w.db, w.db) w).0 as (λ _. Result (Unit {0}) × World) [
            | ok tx ↦ (insert_loop env ns tx >>= commit env) (under_fault f (ok w.db, w.db) w).1
            | err e ↦ (err e, (under_fault f (ok w.db, w.db) w).1)
          ])
  unfolding under_fault ◌>>=◌ commit exec
  after_begin ns w taken =
      let (same, p) = insert_loop-Loops ns w.db w in
      after_loop ns w.db (insert_loop env ns w.db w).0 (insert_loop env ns w.db w).1
        (env.fault (insert_loop env ns w.db w).1.tick) same p
  after_begin ns w (refused x) = (inl refl, λ e. cc)
  after_begin ns w (lost x) = (inl refl, λ e. cc)

-- Whatever faults the connection has and whichever unique index refuses a row, inserting a list of
-- notifications either leaves the tables as they were or adds a row for each of them, in order,
-- behind the others, and changes nothing else; where it returns no error it has added them all.
pub insert_notifications-AllOrNothing :
    (env : Env) (ns : List Notification) (w : World)
    → AllOrNothing env ns w.db (insert_notifications env ns w)
unfolding insert_notifications begin_tx query exec ◌>>=◌
insert_notifications-AllOrNothing env ns w =
    after_begin env ns (record w { tick = suc w.tick }) (env.fault w.tick)
