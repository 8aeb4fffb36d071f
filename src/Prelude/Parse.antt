-- ===== src/Prelude/Parse.antt =====
-- Go's `strconv.Atoi`, `strconv.ParseBool` and `strings.Split` at a character.
pub mod Bounds
use Prim.Native.Char.{code}
use Prim.Native.String.{String}
use Prim.Native.String
use insider_one.Prelude.{
  ℕ, ◌+◌, ◌-◌, ◌*◌, ◌≤◌, Bool, true, false, ◌||◌, ◌&&◌, Option, none, some, List, [], ◌∷◌, ltb, leb,
  ◌==◌, str_eq, if◌then◌else◌,
}
use insider_one.Prelude.Int.{ℤ, pos, negsuc}

-- The digits of `s` behind those that make `acc`.
digits_value : ℕ → String → Option ℕ
digits_value acc String.[] = some acc
digits_value acc (String.◌∷◌ c s) =
    if leb b'0' (code c) && leb (code c) b'9'
    then digits_value (acc * 10 + (code c - b'0')) s
    else none

-- At least one digit.
magnitude : String → Option ℕ
unfolding digits_value
magnitude String.[] = none
magnitude (String.◌∷◌ c s) = digits_value 0 (String.◌∷◌ c s)

-- The range of an `int`, which has 64 bits.
abbrev pub max_int : ℕ
max_int = 9_223_372_036_854_775_807

positive_of : Option ℕ → Option ℤ
positive_of none = none
positive_of (some n) = if leb n max_int then some (pos n) else none

negated : ℕ → ℤ
negated n = if n == 0 then pos 0 else negsuc (n - 1)

negative_of : Option ℕ → Option ℤ
unfolding negated
negative_of none = none
negative_of (some n) = if leb n (max_int + 1) then some (negated n) else none

-- `strconv.Atoi`, `none` for its errors.
unfoldable pub atoi : String → Option ℤ
unfolding magnitude positive_of negative_of
atoi String.[] = none
atoi (String.◌∷◌ c s) =
    if code c == b'-'
    then negative_of (magnitude s)
    else if code c == b'+'
    then positive_of (magnitude s)
    else positive_of (magnitude (String.◌∷◌ c s))

abbrev one_of : String → List String → Bool
one_of s [] = false
one_of s (t ∷ ts) = str_eq s t || one_of s ts

-- `strconv.ParseBool`.
unfoldable pub parse_bool : String → Option Bool
parse_bool s =
    if one_of s ("1" ∷ "t" ∷ "T" ∷ "true" ∷ "TRUE" ∷ "True" ∷ [])
    then some true
    else if one_of s ("0" ∷ "f" ∷ "F" ∷ "false" ∷ "FALSE" ∷ "False" ∷ [])
    then some false
    else none

-- A character in front of the first part.
abbrev onto_first : String → List String → List String
onto_first c [] = c ∷ []
onto_first c (p ∷ ps) = String.◌++◌ c p ∷ ps

-- `strings.Split(s, ",")`: one part more than there are commas.
unfoldable pub split_commas : String → List String
split_commas String.[] = "" ∷ []
split_commas (String.◌∷◌ c s) =
    let rest = split_commas s in
    if code c == b',' then "" ∷ rest else onto_first (String.◌∷◌ c "") rest
