-- ===== src/Repository/Errors.antt =====
-- internal/repository/postgres.go: the helpers on errors, which nothing calls, and the placeholders of
-- a list of ids.
use insider_one.Prelude.{
  ℕ, zero, suc, String, Bool, false, ◌||◌, Option, none, some, List, [], ◌∷◌, if◌then◌else◌,
}
use insider_one.Prelude.Text.{decimal, contains, to_lower, ◌<>◌}
use insider_one.Runtime.{Error}

-- `isUniqueConstraintError`, where `none` is a nil error.
unfoldable pub is_unique_constraint_error : Option Error → Bool
is_unique_constraint_error none = false
is_unique_constraint_error (some e) =
    contains (to_lower e) "duplicate key value violates unique constraint"
    || contains (to_lower e) "unique constraint"

-- `wrapUniqueConstraint`
unfoldable pub wrap_unique_constraint : Option Error → String → Option Error
unfolding is_unique_constraint_error
wrap_unique_constraint e key =
    if is_unique_constraint_error e
    then some ("idempotency key " <> key <> " already exists")
    else e

-- The parts `$start`, `$start+1`, …, and `strings.Join` with commas.
unfoldable pub placeholder_parts : ℕ → ℕ → List String
placeholder_parts start zero = []
placeholder_parts start (suc count) = ("$" <> decimal start) ∷ placeholder_parts (suc start) count

unfoldable pub join_commas : List String → String
join_commas [] = ""
join_commas (part ∷ []) = part
join_commas (part ∷ next ∷ parts) = part <> "," <> join_commas (next ∷ parts)

-- `placeholders`
unfoldable pub placeholders : ℕ → ℕ → String
unfolding placeholder_parts join_commas
placeholders start count = join_commas (placeholder_parts start count)
