-- ===== src/Runtime/Steps.antt =====
-- Rules for running an action step by step, where each step's result is known.

use insider_one.Prelude.{suc, ◌≡◌, refl, ap, none, some}
use insider_one.Repository.Schema.{Database}
use insider_one.Runtime.{
  Result, ok, err, Error, taken, Env, World, Fallible, ◌>>=◌, attempt, lift, ask, check_ctx, query,
  exec, under_fault,
}

module _ {A B : Type 0} (m : Fallible A) (f : A → Fallible B) (w w' : World) where
  pub >>=-ok : (a : A) → m w ≡ (ok a, w') → (m >>= f) w ≡ f a w'
  unfolding ◌>>=◌
  >>=-ok a h =
      ap
        (λ (p : Result A × World). elim p.0 as (λ _. Result B × World) [
          | ok a ↦ f a p.1
          | err e ↦ (err e, p.1)
        ])
        h

  pub >>=-err : (e : Error) → m w ≡ (err e, w') → (m >>= f) w ≡ (err e, w')
  unfolding ◌>>=◌
  >>=-err e h =
      ap
        (λ (p : Result A × World). elim p.0 as (λ _. Result B × World) [
          | ok a ↦ f a p.1
          | err e ↦ (err e, p.1)
        ])
        h

pub attempt-step :
    {A : Type 0} (m : Fallible A) (w w' : World) (r : Result A)
    → m w ≡ (r, w')
    → attempt m w ≡ (ok r, w')
unfolding attempt
attempt-step {A = A} m w w' r h = ap (λ (p : Result A × World). (ok p.0, p.1)) h

-- The world one step on.
abbrev pub tick_on : World → World
tick_on w = record w { tick = suc w.tick }

module _ (env : Env) (w : World) where
  pub check_ctx-ok : env.ctx_err w.tick ≡ none → check_ctx env w ≡ (ok tt, tick_on w)
  unfolding check_ctx ask lift ◌>>=◌
  check_ctx-ok h = rw h refl

  pub check_ctx-err :
      (e : Error) → env.ctx_err w.tick ≡ some e → check_ctx env w ≡ (err e, tick_on w)
  unfolding check_ctx ask lift ◌>>=◌
  check_ctx-err e h = rw h refl

  pub query-ok :
      {A : Type 0} (select : Database → Result A)
      → env.fault w.tick ≡ taken
      → query env select w ≡ (select w.db, tick_on w)
  unfolding query exec under_fault
  query-ok select h = rw h refl
