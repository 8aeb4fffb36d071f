-- ===== src/Config/Settings.antt =====
-- internal/config/config.go: what `Load` makes of any environment.
use insider_one.Prelude.{
  ℕ, zero, suc, ◌≤◌, String, ◌≡◌, refl, ◌≢◌, ◌⊎◌, inl, inr, Option, none, some, List, [], ◌∷◌,
  arith, All, str_eq, eq_iff, Bool-cases,
}
use insider_one.Prelude.Int.{ℤ, pos, negsuc, pos_part}
use insider_one.Prelude.Parse.{atoi, max_int, split_commas}
use insider_one.Prelude.Parse.Bounds.{atoi-bound, atoi-empty}
use insider_one.Prelude.Text.{trim_space}
use insider_one.Config.{Getenv, getenv_int, positive_or, trimmed_parts, getenv_csv, load}

-- An `int` that is positive.
abbrev pub IsPositive : ℤ → Type 0
IsPositive n = (n ≡ pos (pos_part n)) × (1 ≤ pos_part n) × (pos_part n ≤ max_int)

-- The value of a variable that is to be positive.
abbrev pub IsSetting : Getenv → String → ℤ → ℤ → Type 0
IsSetting env key fallback n =
    ((atoi (env key) ≡ some n) × IsPositive n)
    ⊎ (((m : ℕ) → atoi (env key) ≢ some (pos (suc m))) × (n ≡ fallback))

positive_or-IsSetting :
    (env : Getenv) (key : String) (fallback : ℤ) (parsed : Option ℤ)
    → atoi (env key) ≡ parsed
    → IsSetting env key fallback (positive_or fallback parsed)
positive_or-IsSetting env key fallback none e = inr ((λ m h. cc), refl)
positive_or-IsSetting env key fallback (some (pos zero)) e =
    inr ((λ m h. ground (arith, e, h)), refl)
positive_or-IsSetting env key fallback (some (pos (suc n))) e =
    inl (e, (refl, omega arith, atoi-bound (env key) (suc n) e))
positive_or-IsSetting env key fallback (some (negsuc n)) e = inr ((λ m h. cc), refl)

getenv_int-IsSetting :
    (env : Getenv) (key : String) (fallback : ℤ)
    → IsSetting env key fallback (getenv_int env key fallback)
unfolding getenv_int
getenv_int-IsSetting env key fallback = elim (Bool-cases (str_eq (env key) "")) [
  | inl e ↦
      let missing : atoi (env key) ≡ none = atoi-empty (env key) ((eq_iff (env key) "").0 e) in
      rw e (inr ((λ m h. cc), refl))
  | inr e ↦ rw e (positive_or-IsSetting env key fallback (atoi (env key)) refl)
]

trimmed_parts-nonempty : (parts : List String) → All (λ key. key ≢ "") (trimmed_parts parts)
unfolding trimmed_parts
trimmed_parts-nonempty [] = tt
trimmed_parts-nonempty (part ∷ parts) =
    let rest = trimmed_parts-nonempty parts in
    elim (Bool-cases (str_eq (trim_space part) "")) [
      | inl e ↦ rw e rest
      | inr e ↦ rw e ((λ h. ground (arith, eq_iff (trim_space part) "")), rest)
    ]

getenv_csv-nonempty : (env : Getenv) (key : String) → All (λ part. part ≢ "") (getenv_csv env key)
unfolding getenv_csv
getenv_csv-nonempty env key = elim (Bool-cases (str_eq (env key) "")) [
  | inl e ↦ rw e tt
  | inr e ↦ rw e (trimmed_parts-nonempty (split_commas (env key)))
]

-- Whatever the environment holds: the concurrency, the claim limit and the rate limit are what their
-- variables give where that is a positive 64-bit number, and 4, 25 and 100 elsewhere; and no API key
-- is empty.
pub load-IsSetting :
    (env : Getenv)
    → IsSetting env "WORKER_CONCURRENCY" (pos 4) (load env).worker_concurrency
      × IsSetting env "WORKER_CLAIM_LIMIT" (pos 25) (load env).worker_claim_limit
      × IsSetting env "RATE_LIMIT_PER_SECOND" (pos 100) (load env).rate_limit_per_second
      × All (λ key. key ≢ "") (load env).api_keys
unfolding load
load-IsSetting env = (
  getenv_int-IsSetting env "WORKER_CONCURRENCY" (pos 4),
  getenv_int-IsSetting env "WORKER_CLAIM_LIMIT" (pos 25),
  getenv_int-IsSetting env "RATE_LIMIT_PER_SECOND" (pos 100),
  getenv_csv-nonempty env "API_KEYS",
)

IsSetting-IsPositive :
    (env : Getenv) (key : String) (default : ℕ) (n : ℤ)
    → 1 ≤ default
    → default ≤ max_int
    → IsSetting env key (pos default) n
    → IsPositive n
IsSetting-IsPositive env key default n h k (inl s) = s.1
IsSetting-IsPositive env key default n h k (inr s) = rw s.1 (refl, h, k)

-- The three numbers are positive.
pub load-IsPositive :
    (env : Getenv)
    → IsPositive (load env).worker_concurrency
      × IsPositive (load env).worker_claim_limit
      × IsPositive (load env).rate_limit_per_second
load-IsPositive env =
    let all = load-IsSetting env in
    (
      IsSetting-IsPositive env _ 4 _ (omega arith) (omega arith) all.0,
      IsSetting-IsPositive env _ 25 _ (omega arith) (omega arith) all.1,
      IsSetting-IsPositive env _ 100 _ (omega arith) (omega arith) all.2,
    )
