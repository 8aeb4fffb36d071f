-- ===== src/Runtime/Ends.antt =====
-- Actions in calm surroundings, where PostgreSQL takes every statement and the context is not
-- cancelled: rules to follow an action from step to step.
use mathlib.Core.Path.{subst}
use insider_one.Prelude.{ℕ, suc, ◌≡◌, sym, none}
use insider_one.Domain.{Time}
use insider_one.Repository.Schema.{Database}
use insider_one.Runtime.{
  Result, ok, err, taken, Env, World, Fallible, ◌>>=◌, ignore, ask, clock, check_ctx, exec,
  under_fault, view_under_fault, tx_exec,
}
use insider_one.Runtime.Steps.{tick_on, check_ctx-ok}

-- An outcome without error that satisfies `Q`.
abbrev pub Ends : {A : Type 0} → (A → World → Type 0) → Result A × World → Type 0
Ends Q (ok a, w) = Q a w
Ends Q (err e, w) = ⊥

-- The server takes every statement with its values, and the context does not end.
pub record IsCalm (env : Env) : Type 0 where
  pub works : (t : ℕ) → env.fault t ≡ taken
  pub live : (t : ℕ) → env.ctx_err t ≡ none

module _ {A B : Type 0} (Q : B → World → Type 0) (f : A → Fallible B) where
  Ends-then :
      (r : Result A) (w : World)
      → Ends (λ a w'. Ends Q (f a w')) (r, w)
      → Ends Q (elim r as (λ _. Result B × World) [ ok a ↦ f a w | err e ↦ (err e, w) ])
  Ends-then (ok a) w h = h
  Ends-then (err e) w h = absurd h

  pub Ends->>= :
      (m : Fallible A) (w : World) → Ends (λ a w'. Ends Q (f a w')) (m w) → Ends Q ((m >>= f) w)
  unfolding ◌>>=◌
  Ends->>= m w h = Ends-then (m w).0 (m w).1 h

module _ {A : Type 0} where
  pub Ends-weaken :
      (P Q : A → World → Type 0) (r : Result A) (w : World)
      → ((a : A) → P a w → Q a w)
      → Ends P (r, w)
      → Ends Q (r, w)
  Ends-weaken P Q (ok a) w f h = f a h
  Ends-weaken P Q (err e) w f h = absurd h

module _ {A : Type 0} (Q : Unit {0} → World → Type 0) (m : Fallible A) (w : World) where
  ignored : (r : Result A) (w' : World) → Ends (λ _ w'. Q tt w') (r, w') → Q tt w'
  ignored (ok a) w' h = h
  ignored (err e) w' h = absurd h

  pub Ends-ignore : Ends (λ _ w'. Q tt w') (m w) → Ends Q (ignore m w)
  unfolding ignore
  Ends-ignore h = ignored (m w).0 (m w).1 h

module _ (env : Env) (calm : IsCalm env) (w : World) where
  pub Ends-clock :
      (Q : Time → World → Type 0) → Q (env.now w.tick) (tick_on w) → Ends Q (clock env w)
  unfolding clock ask
  Ends-clock Q h = h

  pub Ends-check_ctx : (Q : Unit {0} → World → Type 0) → Q tt (tick_on w) → Ends Q (check_ctx env w)
  Ends-check_ctx Q h = subst (Ends Q) (sym (check_ctx-ok env w (calm.live w.tick))) h

  -- A statement runs, and its own result counts.
  pub Ends-exec :
      {A : Type 0} (Q : A → World → Type 0) (statement : Database → Result A × Database)
      → Ends Q ((statement w.db).0, record w { tick = suc w.tick; db = (statement w.db).1 })
      → Ends Q (exec env statement w)
  unfolding exec under_fault
  Ends-exec Q statement h =
      subst (λ f. Ends Q (under_fault f (statement w.db) (tick_on w))) (sym (calm.works w.tick)) h

  pub Ends-tx_exec :
      {A : Type 0} (Q : A × Database → World → Type 0) (statement : Database → Result A × Database)
      (tx : Database)
      → Ends (λ a w'. Q (a, (statement tx).1) w') ((statement tx).0, tick_on w)
      → Ends Q (tx_exec env statement tx w)
  unfolding tx_exec view_under_fault
  Ends-tx_exec Q statement tx h =
      subst (λ f. Ends Q (view_under_fault f (statement tx), tick_on w)) (sym (calm.works w.tick))
        (go (statement tx).0 h)
    where
      go :
          (r : Result _)
          → Ends (λ a w'. Q (a, (statement tx).1) w') (r, tick_on w)
          → Ends Q (view_under_fault taken (r, (statement tx).1), tick_on w)
      go (ok a) h = h
      go (err e) h = absurd h
