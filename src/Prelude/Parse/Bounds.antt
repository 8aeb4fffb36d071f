-- ===== src/Prelude/Parse/Bounds.antt =====
-- The numbers that Go's `strconv.Atoi` gives.

use Prim.Native.String.{String}
use insider_one.Prelude.{ℕ, ◌≤◌, ◌≡◌, refl, Option, none, some, arith}
use insider_one.Prelude.Int.{pos}
use insider_one.Prelude.Parse.{atoi, max_int, magnitude, positive_of, negated, negative_of}

positive_of-bound : (m : Option ℕ) (n : ℕ) → positive_of m ≡ some (pos n) → n ≤ max_int
unfolding positive_of
positive_of-bound none n h = absurd (ground arith)
positive_of-bound (some k) n h = ground arith

negative_of-bound : (m : Option ℕ) (n : ℕ) → negative_of m ≡ some (pos n) → n ≤ max_int
unfolding negative_of negated
negative_of-bound none n h = absurd (ground arith)
negative_of-bound (some k) n h = ground arith

-- What `Atoi` gives is within the range of an `int`.
pub atoi-bound : (s : String) (n : ℕ) → atoi s ≡ some (pos n) → n ≤ max_int
unfolding atoi
atoi-bound String.[] n h = absurd (ground arith)
atoi-bound (String.◌∷◌ c s) n h = ground (
  arith,
  positive_of-bound (magnitude s) n,
  negative_of-bound (magnitude s) n,
  positive_of-bound (magnitude (String.◌∷◌ c s)) n,
)

pub atoi-empty : (s : String) → s ≡ "" → atoi s ≡ none
unfolding atoi
atoi-empty s e = rw e refl
