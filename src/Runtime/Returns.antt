-- ===== src/Runtime/Returns.antt =====
-- Actions that return, whatever the surroundings do, with a property of what they return.
use insider_one.Prelude.{◌≡◌, Bool, true, false, if◌then◌else◌}
use insider_one.Runtime.{Result, ok, Env, World, Fallible, pure, ◌>>=◌, attempt, ask, clock}
use insider_one.Runtime.Ends.{Ends, Ends->>=, Ends-weaken}

pub record Returns {A : Type 0} (P : A → Type 0) (m : Fallible A) : Type 0 where
  pub at : (w : World) → Ends (λ a w'. P a) (m w)

abbrev pub Any : {A : Type 0} → A → Type 0
Any a = Unit {0}

module _ {A : Type 0} (P : A → Type 0) where
  pub Returns-pure : (a : A) → P a → Returns P (pure a)
  Returns-pure a h = record { at = λ w. h }

  pub Returns-if :
      (b : Bool) {m k : Fallible A} → Returns P m → Returns P k → Returns P (if b then m else k)
  Returns-if true h k = h
  Returns-if false h k = k

  pub Returns-then :
      {B : Type 0} (Q : B → Type 0) {m : Fallible B} {f : B → Fallible A}
      → Returns Q m
      → ((b : B) → Q b → Returns P (f b))
      → Returns P (m >>= f)
  Returns-then Q {m = m} {f = f} h k = record {
    at = λ w.
        Ends->>= (λ a w'. P a) f m w
          (Ends-weaken (λ b w'. Q b) _ (m w).0 (m w).1 (λ b q. (k b q).at (m w).1) (h.at w));
  }

  pub Returns->>= :
      {B : Type 0} {m : Fallible B} {f : B → Fallible A}
      → Returns Any m
      → ((b : B) → Returns P (f b))
      → Returns P (m >>= f)
  Returns->>= h k = Returns-then Any h (λ b q. k b)

pub Returns-attempt : {A : Type 0} (m : Fallible A) → Returns Any (attempt m)
unfolding attempt
Returns-attempt m = record { at = λ w. tt }

pub Returns-clock : (env : Env) → Returns Any (clock env)
unfolding clock ask
Returns-clock env = record { at = λ w. tt }

-- An attempt, with what the action returns if it returns.
pub Returns-attempted :
    {A B : Type 0} (P : B → Type 0) (Q : A → Type 0) (m : Fallible A) (f : Result A → Fallible B)
    → ((w : World) (a : A) → (m w).0 ≡ ok a → Q a)
    → ((result : Result A) → ((a : A) → result ≡ ok a → Q a) → Returns P (f result))
    → Returns P (attempt m >>= f)
unfolding attempt
Returns-attempted P Q m f h k =
    Returns-then P (λ result. (a : _) → result ≡ ok a → Q a) (record { at = λ w a e. h w a e }) k
