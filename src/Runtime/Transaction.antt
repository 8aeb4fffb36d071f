-- ===== src/Runtime/Transaction.antt =====
-- Transactions: what the tables and the result satisfy after one that started from tables `start`,
-- whatever faults the connection has. The view satisfies a condition of its own at each point.
use mathlib.Core.Path.{subst}
use insider_one.Prelude.{◌≡◌, refl}
use insider_one.Domain.{Time}
use insider_one.Repository.Schema.{Database}
use insider_one.Runtime.{
  Error, Result, ok, err, Fault, taken, refused, lost, Env, World, Fallible, pure, ◌>>=◌, ask,
  clock, under_fault, view_under_fault, exec, query, tx_exec, begin_tx, commit,
}

-- The tables are good, and so is a result with the tables.
abbrev pub IsGood :
    {A : Type 0} (G : Database → Type 0) (Post : A → Database → Type 0) → Result A × World → Type 0
IsGood G Post (r, w) = G w.db × ((a : _) → r ≡ ok a → Post a w.db)

module _ (start : Database) (G : Database → Type 0) (good : G start) (env : Env) where
  pub record InTx (P : Database → Type 0) {A : Type 0} (Post : A → Database → Type 0)
      (k : Database → Fallible A) : Type 0 where
    pub at : (w : World) (tx : Database) → w.db ≡ start → P tx → IsGood G Post (k tx w)

  module _ {A : Type 0} (Post : A → Database → Type 0) where
    failed : (e : Error) (w : World) → w.db ≡ start → IsGood G Post (err e, w)
    failed e w s = (rw s good, λ a p. cc)

    after_begin :
        (k : Database → Fallible A)
        → InTx (λ tx. tx ≡ start) Post k
        → (f : Fault) (w : World) → w.db ≡ start
        → IsGood G Post (elim (under_fault f (ok w.db, w.db) w).0 as (λ _. Result A × World) [
          | ok a ↦ k a (under_fault f (ok w.db, w.db) w).1
          | err e ↦ (err e, (under_fault f (ok w.db, w.db) w).1)
        ])
    unfolding under_fault
    after_begin k h taken w s = h.at w w.db s s
    after_begin k h (refused e) w s = failed e w s
    after_begin k h (lost e) w s = failed e w s

    pub InTx-begin_tx :
        (k : Database → Fallible A)
        → InTx (λ tx. tx ≡ start) Post k
        → (w : World) → w.db ≡ start
        → IsGood G Post ((begin_tx env >>= k) w)
    unfolding begin_tx query exec ◌>>=◌
    InTx-begin_tx k h w s = after_begin k h (env.fault w.tick) _ s

    pub InTx-clock :
        (P : Database → Type 0) (k : Time → Database → Fallible A)
        → ((now : Time) → InTx P Post (k now))
        → InTx P Post (λ tx. clock env >>= λ now. k now tx)
    unfolding clock ask ◌>>=◌
    InTx-clock P k h = record { at = λ w tx s p. (h (env.now w.tick)).at _ tx s p }

    after_view :
        {B : Type 0} (P' : B → Database → Type 0) (k : B → Database → Fallible A)
        → ((b : B) → InTx (P' b) Post (k b))
        → (f : Fault) (r : Result B) (tx : Database) (w : World) → w.db ≡ start
        → ((b : B) → r ≡ ok b → P' b tx)
        → IsGood G Post (elim (view_under_fault f (r, tx)) as (λ _. Result A × World) [
          | ok a ↦ k a.0 a.1 w
          | err e ↦ (err e, w)
        ])
    unfolding view_under_fault
    after_view P' k h taken (ok b) tx w s p = (h b).at w tx s (p b refl)
    after_view P' k h taken (err e) tx w s p = failed e w s
    after_view P' k h (refused e) r tx w s p = failed e w s
    after_view P' k h (lost e) r tx w s p = failed e w s

    pub InTx-tx_exec :
        {B : Type 0} (P : Database → Type 0) (P' : B → Database → Type 0)
        (statement : Database → Result B × Database) (k : B → Database → Fallible A)
        → ((db : Database) (b : B) → P db → (statement db).0 ≡ ok b → P' b (statement db).1)
        → ((b : B) → InTx (P' b) Post (k b))
        → InTx P Post (λ tx. tx_exec env statement tx >>= λ (b, tx'). k b tx')
    unfolding tx_exec ◌>>=◌
    InTx-tx_exec P P' statement k keep h = record {
      at = λ w tx s p.
          after_view P' k h (env.fault w.tick) (statement tx).0 (statement tx).1 _ s
            (λ b e. keep tx b p e);
    }

    after_commit :
        (a : A) (f : Fault) (tx : Database) (w : World)
        → w.db ≡ start
        → G tx
        → Post a tx
        → IsGood G Post
            (elim (under_fault {A = Unit {0}} f (ok tt, tx) w).0 as (λ _. Result A × World) [
              | ok _ ↦ (ok a, (under_fault {A = Unit {0}} f (ok tt, tx) w).1)
              | err e ↦ (err e, (under_fault {A = Unit {0}} f (ok tt, tx) w).1)
            ])
    unfolding under_fault
    after_commit a taken tx w s g p = (g, λ b e. let q : a ≡ b = cc in subst (λ x. Post x tx) q p)
    after_commit a (refused e) tx w s g p = failed e w s
    after_commit a (lost e) tx w s g p = (g, λ b q. cc)

    -- `if err := tx.Commit(); err != nil { … }; return a, nil`
    pub InTx-commit :
        (P : Database → Type 0) (a : A)
        → ((tx : Database) → P tx → G tx × Post a tx)
        → InTx P Post (λ tx. commit env tx >>= λ _. pure a)
    unfolding commit exec ◌>>=◌
    InTx-commit P a h = record {
      at = λ w tx s p. let (g, q) = h tx p in after_commit a (env.fault w.tick) tx _ s g q;
    }
