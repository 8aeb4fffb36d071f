-- ===== src/Runtime/From.antt =====
-- Rules for actions that respect a relation from tables which satisfy a condition.

use insider_one.Prelude.{◌≡◌, refl, ◌∙◌}
use insider_one.Repository.Schema.{Database}
use insider_one.Runtime.{Result, ok, err, Env, World, Fallible, ◌>>=◌, ignore, exec}
use insider_one.Runtime.Keeps.{IsPreorder, Keeps, under_fault-related}

abbrev pub Unchanged : Database → Database → Type 0
Unchanged db db' = db' ≡ db

pub unchanged : IsPreorder Unchanged
unchanged = record { refl_at = λ db. refl; trans_at = λ a b c p q. q ∙ p }

pub record KeepsFrom (P : Database → Type 0) (R : Database → Database → Type 0) {A : Type 0}
    (m : Fallible A) : Type 0 where
  pub at : (w : World) → P w.db → R w.db (m w).1.db

module _ (P : Database → Type 0) (R : Database → Database → Type 0) (pre : IsPreorder R) where
  after_unchanged :
      {A B : Type 0} (f : A → Fallible B) (db : Database) (r : Result A) (w : World)
      → w.db ≡ db
      → P db
      → ((a : A) → KeepsFrom P R (f a))
      → R db (elim r as (λ _. Result B × World) [ ok a ↦ f a w | err e ↦ (err e, w) ]).1.db
  after_unchanged f db (ok a) w e p h = rw (← e) ((h a).at w (rw e p))
  after_unchanged f db (err x) w e p h = rw e (pre.refl_at db)

  pub KeepsFrom-Unchanged :
      {A B : Type 0} {m : Fallible A} {f : A → Fallible B}
      → Keeps Unchanged m
      → ((a : A) → KeepsFrom P R (f a))
      → KeepsFrom P R (m >>= f)
  unfolding ◌>>=◌
  KeepsFrom-Unchanged {m = m} {f = f} h k = record {
    at = λ w p. after_unchanged f w.db (m w).0 (m w).1 (h.at w) p k;
  }

  after_from :
      {A B : Type 0} (f : A → Fallible B) (db : Database) (r : Result A) (w : World)
      → R db w.db
      → ((a : A) → Keeps R (f a))
      → R db (elim r as (λ _. Result B × World) [ ok a ↦ f a w | err e ↦ (err e, w) ]).1.db
  after_from f db (ok a) w h k = pre.trans_at _ _ _ h ((k a).at w)
  after_from f db (err e) w h k = h

  pub KeepsFrom-then :
      {A B : Type 0} {m : Fallible A} {f : A → Fallible B}
      → KeepsFrom P R m
      → ((a : A) → Keeps R (f a))
      → KeepsFrom P R (m >>= f)
  unfolding ◌>>=◌
  KeepsFrom-then {m = m} {f = f} h k = record {
    at = λ w p. after_from f w.db (m w).0 (m w).1 (h.at w p) k;
  }

  pub KeepsFrom-ignore : {A : Type 0} {m : Fallible A} → KeepsFrom P R m → KeepsFrom P R (ignore m)
  unfolding ignore
  KeepsFrom-ignore h = record { at = h.at }

  pub KeepsFrom-exec :
      {A : Type 0} (env : Env) (statement : Database → Result A × Database)
      → ((db : Database) → P db → R db (statement db).1)
      → KeepsFrom P R (exec env statement)
  unfolding exec
  KeepsFrom-exec env statement h = record {
    at = λ w p.
        under_fault-related R pre env (env.fault w.tick) (statement w.db).0 (statement w.db).1 _
          (h w.db p);
  }

-- An action that changes no table respects every preorder.
pub Keeps_of_Unchanged :
    (R : Database → Database → Type 0) (pre : IsPreorder R) {A : Type 0} {m : Fallible A}
    → Keeps Unchanged m
    → Keeps R m
Keeps_of_Unchanged R pre h = record { at = λ w. rw (h.at w) (pre.refl_at w.db) }
