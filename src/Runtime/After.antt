-- ===== src/Runtime/After.antt =====
-- What holds behind an action where it returns: its result with the world that it leaves.
use insider_one.Prelude.{◌≡◌, refl, Bool, true, false, if◌then◌else◌}
use insider_one.Runtime.{Result, ok, err, World, Fallible, ◌>>=◌, attempt}

abbrev pub After : {A : Type 0} → (A → World → Type 0) → Fallible A → World → Type 0
After {A = A} P m w = (a : A) → (m w).0 ≡ ok a → P a (m w).1

module _ {A B : Type 0} (P : B → World → Type 0) (f : A → Fallible B) where
  after_result :
      (r : Result A) (w : World)
      → ((a : A) → r ≡ ok a → After P (f a) w)
      → (b : B) → (elim r as (λ _. Result B × World) [ ok a ↦ f a w | err e ↦ (err e, w) ]).0 ≡ ok b
      → P b (elim r as (λ _. Result B × World) [ ok a ↦ f a w | err e ↦ (err e, w) ]).1
  after_result (ok a) w h b e = h a refl b e
  after_result (err x) w h b e = absurd (failed e)
    where
      failed : Path (Result B) (err x) (ok b) → ⊥
      failed q = cc

  pub After->>= :
      (m : Fallible A) (w : World)
      → ((a : A) → (m w).0 ≡ ok a → After P (f a) (m w).1)
      → After P (m >>= f) w
  unfolding ◌>>=◌
  After->>= m w h = after_result (m w).0 (m w).1 h

pub After-attempt :
    {A B : Type 0} (P : B → World → Type 0) (m : Fallible A) (f : Result A → Fallible B) (w : World)
    → ((r : Result A) → (m w).0 ≡ r → After P (f r) (m w).1)
    → After P (attempt m >>= f) w
unfolding ◌>>=◌ attempt
After-attempt P m f w h = h (m w).0 refl

pub After-if :
    {A : Type 0} (P : A → World → Type 0) (b : Bool) (m k : Fallible A) (w : World)
    → After P m w
    → After P k w
    → After P (if b then m else k) w
After-if P true m k w h g = h
After-if P false m k w h g = g
