-- ===== src/Runtime/Keeps.antt =====
-- Properties of actions that hold whatever the surroundings do: a relation between the tables
-- before and after an action, with one rule for each way of building actions.
use insider_one.Prelude.{ℕ, ◌≡◌, refl, Bool, true, false, if◌then◌else◌}
use insider_one.Domain.{Time}
use insider_one.Metrics.{Metrics}
use insider_one.Repository.Schema.{Database}
use insider_one.Runtime.{
  Error, Result, ok, err, Fault, taken, refused, lost, under_fault, view_under_fault, Env, World,
  Fallible, pure, raise, ◌>>=◌, attempt, ignore, lift, ask, modify_metrics, get_metrics, clock,
  check_ctx, err_of, exec, query, tx_exec, begin_tx, commit,
}

pub record IsPreorder (R : Database → Database → Type 0) : Type 0 where
  pub refl_at : (db : Database) → R db db
  pub trans_at : (a b c : Database) → R a b → R b c → R a c

pub record Keeps (R : Database → Database → Type 0) {A : Type 0} (m : Fallible A) : Type 0 where
  pub at : (w : World) → R w.db (m w).1.db

-- What an action returns, if it returns, has a property.
pub record Gives {A : Type 0} (P : A → Type 0) (m : Fallible A) : Type 0 where
  pub gives : (w : World) (a : A) → (m w).0 ≡ ok a → P a

-- The same for the rest of a transaction, which starts from a view that is related to the tables.
pub record KeepsTx (R : Database → Database → Type 0) {A : Type 0} (k : Database → Fallible A)
    : Type 0 where
  pub at : (w : World) (tx : Database) → R w.db tx → R w.db (k tx w).1.db

regroup :
    {A B C : Type 0} (f : A → Fallible B) (k : B → Fallible C) (r : Result A) (w : World)
    → (lift r >>= f >>= k) w ≡ (lift r >>= λ a. f a >>= k) w
unfolding ◌>>=◌ lift
regroup f k (ok a) w = refl
regroup f k (err e) w = refl

-- Binding is associative.
>>=_assoc :
    {A B C : Type 0} (m : Fallible A) (f : A → Fallible B) (k : B → Fallible C) (w : World)
    → (m >>= f >>= k) w ≡ (m >>= λ a. f a >>= k) w
unfolding ◌>>=◌ lift
>>=_assoc m f k w = unfold ◌>>=◌ lift in regroup f k (m w).0 (m w).1

module _ (R : Database → Database → Type 0) (pre : IsPreorder R) where
  pub Keeps-pure : {A : Type 0} (a : A) → Keeps R (pure a)
  Keeps-pure a = record { at = λ w. pre.refl_at w.db }

  pub Keeps-raise : {A : Type 0} (e : Error) → Keeps R (raise {A = A} e)
  Keeps-raise e = record { at = λ w. pre.refl_at w.db }

  pub Keeps-lift : {A : Type 0} (r : Result A) → Keeps R (lift r)
  unfolding lift
  Keeps-lift r = record { at = λ w. pre.refl_at w.db }

  pub Keeps-ask : {A : Type 0} (source : ℕ → A) → Keeps R (ask source)
  unfolding ask
  Keeps-ask source = record { at = λ w. pre.refl_at w.db }

  pub Keeps-modify_metrics : (f : Metrics → Metrics) → Keeps R (modify_metrics f)
  unfolding modify_metrics
  Keeps-modify_metrics f = record { at = λ w. pre.refl_at w.db }

  pub Keeps-get_metrics : Keeps R get_metrics
  unfolding get_metrics
  Keeps-get_metrics = record { at = λ w. pre.refl_at w.db }

  pub Keeps-attempt : {A : Type 0} {m : Fallible A} → Keeps R m → Keeps R (attempt m)
  unfolding attempt
  Keeps-attempt h = record { at = h.at }

  pub Keeps-ignore : {A : Type 0} {m : Fallible A} → Keeps R m → Keeps R (ignore m)
  unfolding ignore
  Keeps-ignore h = record { at = h.at }

  after_step :
      {A B : Type 0} (f : A → Fallible B) (db : Database) (r : Result A) (w : World)
      → R db w.db
      → ((a : A) → Keeps R (f a))
      → R db (elim r as (λ _. Result B × World) [ ok a ↦ f a w | err e ↦ (err e, w) ]).1.db
  after_step f db (ok a) w h k = pre.trans_at _ _ _ h ((k a).at w)
  after_step f db (err e) w h k = h

  pub Keeps->>= :
      {A B : Type 0} {m : Fallible A} {f : A → Fallible B}
      → Keeps R m
      → ((a : A) → Keeps R (f a))
      → Keeps R (m >>= f)
  unfolding ◌>>=◌
  Keeps->>= {m = m} {f = f} h k = record { at = λ w. after_step f w.db (m w).0 (m w).1 (h.at w) k }

  -- A rule for a bind whose second part relies on what the first one returns.
  after_post :
      {A B : Type 0} {P : A → Type 0} (f : A → Fallible B) (db : Database) (r : Result A)
      (w : World)
      → R db w.db
      → ((a : A) → r ≡ ok a → P a)
      → ((a : A) → P a → Keeps R (f a))
      → R db (elim r as (λ _. Result B × World) [ ok a ↦ f a w | err e ↦ (err e, w) ]).1.db
  after_post f db (ok a) w h p k = pre.trans_at _ _ _ h ((k a (p a refl)).at w)
  after_post f db (err e) w h p k = h

  pub Keeps->>=_post :
      {A B : Type 0} (P : A → Type 0) {m : Fallible A} {f : A → Fallible B}
      → Keeps R m
      → Gives P m
      → ((a : A) → P a → Keeps R (f a))
      → Keeps R (m >>= f)
  unfolding ◌>>=◌
  Keeps->>=_post P {m = m} {f = f} h p k = record {
    at = λ w. after_post f w.db (m w).0 (m w).1 (h.at w) (p.gives w) k;
  }

  pub KeepsTx->>=_assoc :
      {A B C : Type 0} (m : Database → Fallible A) (f : A → Fallible B) (k : B → Fallible C)
      → KeepsTx R (λ tx. m tx >>= λ a. f a >>= k)
      → KeepsTx R (λ tx. (m tx >>= f) >>= k)
  KeepsTx->>=_assoc m f k h = record { at = λ w tx r. rw (>>=_assoc (m tx) f k w) (h.at w tx r) }

  pub KeepsTx-then :
      {A B : Type 0} {k : Database → Fallible A} {f : A → Fallible B}
      → KeepsTx R k
      → ((a : A) → Keeps R (f a))
      → KeepsTx R (λ tx. k tx >>= f)
  unfolding ◌>>=◌
  KeepsTx-then {k = k} {f = f} h g = record {
    at = λ w tx r. after_step f w.db (k tx w).0 (k tx w).1 (h.at w tx r) g;
  }

  module _ (env : Env) where
    pub Keeps-clock : Keeps R (clock env)
    unfolding clock
    Keeps-clock = Keeps-ask env.now

    pub Keeps-check_ctx : Keeps R (check_ctx env)
    unfolding check_ctx
    Keeps-check_ctx = Keeps->>= (Keeps-ask env.ctx_err) (λ e. Keeps-lift (err_of e))

    pub under_fault-related :
        {A : Type 0} (f : Fault) (r : Result A) (db : Database) (w : World)
        → R w.db db
        → R w.db (under_fault f (r, db) w).1.db
    unfolding under_fault
    under_fault-related taken r db w h = h
    under_fault-related (refused e) r db w h = pre.refl_at w.db
    under_fault-related (lost e) r db w h = h

    pub Keeps-exec :
        {A : Type 0} (statement : Database → Result A × Database)
        → ((db : Database) → R db (statement db).1)
        → Keeps R (exec env statement)
    unfolding exec
    Keeps-exec statement h = record {
      at = λ w.
          under_fault-related (env.fault w.tick) (statement w.db).0 (statement w.db).1 _ (h w.db);
    }

    pub Keeps-query : {A : Type 0} (select : Database → Result A) → Keeps R (query env select)
    unfolding query
    Keeps-query select = Keeps-exec (λ db. (select db, db)) pre.refl_at

    after_begin :
        {A : Type 0} (k : Database → Fallible A)
        → KeepsTx R k
        → (f : Fault) (w : World)
        → R w.db
            (elim (under_fault f (ok w.db, w.db) w).0 as (λ _. Result A × World) [
              | ok a ↦ k a (under_fault f (ok w.db, w.db) w).1
              | err e ↦ (err e, (under_fault f (ok w.db, w.db) w).1)
            ]).1.db
    unfolding under_fault
    after_begin k h taken w = h.at w w.db (pre.refl_at w.db)
    after_begin k h (refused e) w = pre.refl_at w.db
    after_begin k h (lost e) w = pre.refl_at w.db

    after_view :
        {A B : Type 0} (k : A → Database → Fallible B) (tx : Database)
        → ((a : A) → KeepsTx R (k a))
        → (f : Fault) (s : Result A × Database) (w : World) → R w.db tx
        → R tx s.1
        → R w.db
            (elim (view_under_fault f s) as (λ _. Result B × World) [
              | ok a ↦ k a.0 a.1 w
              | err e ↦ (err e, w)
            ]).1.db
    unfolding view_under_fault
    after_view k tx rest taken (ok a, tx') w h g = (rest a).at w tx' (pre.trans_at _ _ _ h g)
    after_view k tx rest taken (err e, tx') w h g = pre.refl_at w.db
    after_view k tx rest (refused e) s w h g = pre.refl_at w.db
    after_view k tx rest (lost e) s w h g = pre.refl_at w.db

    -- A transaction keeps the relation if the rest of it does from a view that is the tables.
    pub Keeps-begin_tx :
        {A : Type 0} (k : Database → Fallible A) → KeepsTx R k → Keeps R (begin_tx env >>= k)
    unfolding begin_tx query exec ◌>>=◌
    Keeps-begin_tx k h = record { at = λ w. after_begin k h (env.fault w.tick) _ }

    pub KeepsTx-commit : KeepsTx R (commit env)
    unfolding commit exec
    KeepsTx-commit = record { at = λ w tx h. under_fault-related (env.fault w.tick) (ok tt) tx _ h }

    pub KeepsTx-tx_exec :
        {A B : Type 0} (statement : Database → Result A × Database) (k : A → Database → Fallible B)
        → ((db : Database) → R db (statement db).1)
        → ((a : A) → KeepsTx R (k a))
        → KeepsTx R (λ tx. tx_exec env statement tx >>= λ (a, tx'). k a tx')
    unfolding tx_exec ◌>>=◌
    KeepsTx-tx_exec statement k h rest = record {
      at = λ w tx r. after_view k tx rest (env.fault w.tick) (statement tx) _ r (h tx);
    }

    pub KeepsTx-clock :
        {A : Type 0} (k : Time → Database → Fallible A)
        → ((now : Time) → KeepsTx R (k now))
        → KeepsTx R (λ tx. clock env >>= λ now. k now tx)
    unfolding clock ask ◌>>=◌
    KeepsTx-clock k h = record { at = λ w tx r. (h (env.now w.tick)).at _ tx r }

    pub KeepsTx-if :
        {A : Type 0} (b : Bool) (k l : Database → Fallible A)
        → KeepsTx R k
        → KeepsTx R l
        → KeepsTx R (λ tx. if b then k tx else l tx)
    KeepsTx-if true k l h g = h
    KeepsTx-if false k l h g = g

  pub Keeps-if :
      {A : Type 0} (b : Bool) {m n : Fallible A}
      → Keeps R m
      → Keeps R n
      → Keeps R (if b then m else n)
  Keeps-if true h g = h
  Keeps-if false h g = g
