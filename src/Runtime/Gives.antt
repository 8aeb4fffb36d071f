-- ===== src/Runtime/Gives.antt =====
-- Rules for what actions return.
use mathlib.Core.Path.{subst}
use insider_one.Prelude.{◌≡◌, refl}
use insider_one.Runtime.{Result, ok, err, World, Fallible, pure, ◌>>=◌}
use insider_one.Runtime.Keeps.{Gives}

module _ {A B : Type 0} (P : B → Type 0) where
  after_gives :
      (f : A → Fallible B) (r : Result A) (w : World) (b : B)
      → ((a : A) → Gives P (f a))
      → (elim r as (λ _. Result B × World) [ ok a ↦ f a w | err e ↦ (err e, w) ]).0 ≡ ok b
      → P b
  after_gives f (ok a) w b h e = (h a).gives w b e
  after_gives f (err x) w b h e = cc

  -- A bind returns what its second part returns.
  pub Gives->>= :
      (m : Fallible A) (f : A → Fallible B) → ((a : A) → Gives P (f a)) → Gives P (m >>= f)
  unfolding ◌>>=◌
  Gives->>= m f h = record { gives = λ w b e. after_gives f (m w).0 (m w).1 b h e }

  after_gives_post :
      (Q : A → Type 0) (f : A → Fallible B) (r : Result A) (w : World) (b : B)
      → ((a : A) → r ≡ ok a → Q a)
      → ((a : A) → Q a → Gives P (f a))
      → (elim r as (λ _. Result B × World) [ ok a ↦ f a w | err e ↦ (err e, w) ]).0 ≡ ok b
      → P b
  after_gives_post Q f (ok a) w b q h e = (h a (q a refl)).gives w b e
  after_gives_post Q f (err x) w b q h e = cc

  pub Gives->>=_post :
      (Q : A → Type 0) (m : Fallible A) (f : A → Fallible B)
      → Gives Q m
      → ((a : A) → Q a → Gives P (f a))
      → Gives P (m >>= f)
  unfolding ◌>>=◌
  Gives->>=_post Q m f q h = record {
    gives = λ w b e. after_gives_post Q f (m w).0 (m w).1 b (q.gives w) h e;
  }

pub Gives-pure : {A : Type 0} (P : A → Type 0) (a : A) → P a → Gives P (pure a)
Gives-pure P a h = record { gives = λ w b e. let q : a ≡ b = cc in subst P q h }
