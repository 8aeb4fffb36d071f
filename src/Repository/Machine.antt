-- ===== src/Repository/Machine.antt =====
-- internal/repository/postgres.go and internal/service/service.go: the life of a notification as an
-- abstract machine of its status and its attempts, without tables, times or messages.
use insider_one.Prelude.{ℕ, ◌+◌, ◌<◌, ◌≤◌, ◌≡◌, refl, true}
use insider_one.Domain.{
  Status, pending, processing, delivered, failed, cancelled, scheduled, dead_letter,
}
use insider_one.Repository.Write.{is_open}

module _ (max_attempts : ℕ) where
  -- One move, from a status and a number of attempts to others.
  pub data Move : Status → ℕ → Status → ℕ → Type 0 where
    take : (n : ℕ) → Move pending n processing n
    take_scheduled : (n : ℕ) → Move scheduled n processing n
    deliver : (n : ℕ) → Move processing n delivered (n + 1)
    postpone : (n : ℕ) → n + 1 < max_attempts → Move processing n scheduled (n + 1)
    give_up : (n : ℕ) → max_attempts ≤ n + 1 → Move processing n dead_letter (n + 1)
    reject : (n : ℕ) → Move processing n failed (n + 1)
    cancel : (from : Status) (n : ℕ) → is_open from ≡ true → Move from n cancelled n

  -- Any number of moves.
  pub data Moves : Status → ℕ → Status → ℕ → Type 0 where
    stay : (x : Status) (n : ℕ) → Moves x n x n
    move : (x y z : Status) (n m k : ℕ) → Move x n y m → Moves y m z k → Moves x n z k

  pub Moves-one : (x y : Status) (n m : ℕ) → Move x n y m → Moves x n y m
  Moves-one x y n m step = move x y y n m m step (stay y m)

  pub Moves-trans : (x y z : Status) (n m k : ℕ) → Moves x n y m → Moves y m z k → Moves x n z k
  Moves-trans x _ z n _ k (stay _ _) rest = rest
  Moves-trans x y z n m k (move _ x' _ _ n' _ step first) rest =
      move x x' z n n' k step (Moves-trans x' y z n' m k first rest)

  -- From a status that is not open there is no move.
  Move-open : (x y : Status) (n m : ℕ) → Move x n y m → is_open x ≡ true
  Move-open _ _ _ _ (take n) = refl
  Move-open _ _ _ _ (take_scheduled n) = refl
  Move-open _ _ _ _ (deliver n) = refl
  Move-open _ _ _ _ (postpone n h) = refl
  Move-open _ _ _ _ (give_up n h) = refl
  Move-open _ _ _ _ (reject n) = refl
  Move-open _ _ _ _ (cancel from n h) = h
