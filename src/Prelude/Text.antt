-- ===== src/Prelude/Text.antt =====
-- The operations of Go's strings, strconv and hex packages that the program uses.
use Prim.Native.Char.{code}
use Prim.Native.String.{String, slice}
use Prim.Native.String
use Prim.Native.Nat.{ℕ, zero, suc, ◌+◌, ◌-◌, ◌/◌, ◌%◌}
use mathlib.Core.Bool.{Bool, ◌&&◌, ◌||◌}
use mathlib.Core.List.{List, [], ◌∷◌}
use text.Mathlib.Text.{◌==◌ as str_eq, starts_with}
use insider_one.Prelude.Tests.{leb, ltb, ◌==◌, if◌then◌else◌}

infixr 60 ◌<>◌
-- Concatenation of texts.
abbrev pub ◌<>◌ : String → String → String
a <> b = String.◌++◌ a b

-- `unicode.IsSpace`.
unfoldable pub is_space : ℕ → Bool
is_space c =
    (leb 9 c && leb c 13)
    || c == 32
    || c == 0x85
    || c == 0xa0
    || c == 0x1680
    || (leb 0x2000 c && leb c 0x200a)
    || c == 0x2028
    || c == 0x2029
    || c == 0x202f
    || c == 0x205f
    || c == 0x3000

trim_left : String → String
trim_left String.[] = ""
trim_left (String.◌∷◌ c s) = if is_space (code c) then trim_left s else String.◌∷◌ c s

trim_right : String → String
trim_right String.[] = ""
trim_right (String.◌∷◌ c s) =
    let rest = trim_right s in if is_space (code c) && str_eq rest "" then "" else String.◌∷◌ c rest

-- `strings.TrimSpace`.
unfoldable pub trim_space : String → String
unfolding trim_left trim_right is_space
trim_space s = trim_right (trim_left s)

abbrev is_upper : ℕ → Bool
is_upper c = leb 65 c && leb c 90

lower_letter : ℕ → String
lower_letter c = slice "abcdefghijklmnopqrstuvwxyz" (c - 65) (c - 64)

-- Lower case for the ASCII letters; other characters are kept.
unfoldable pub lower_ascii : String → String
unfolding lower_letter
lower_ascii String.[] = ""
lower_ascii (String.◌∷◌ c s) =
    let rest = lower_ascii s in
    if is_upper (code c) then lower_letter (code c) <> rest else String.◌∷◌ c rest

-- `strings.ToLower`, as far as a search for ASCII text can tell: the two characters beyond ASCII
-- whose lower case is an ASCII letter are mapped to it, and the others are kept.
unfoldable pub to_lower : String → String
unfolding lower_letter
to_lower String.[] = ""
to_lower (String.◌∷◌ c s) =
    let rest = to_lower s in
    if is_upper (code c)
    then lower_letter (code c) <> rest
    else if code c == 0x130
    then "i" <> rest
    else if code c == 0x212a
    then "k" <> rest
    else String.◌∷◌ c rest

-- `strings.Contains`.
unfoldable pub contains : String → String → Bool
contains String.[] part = str_eq part ""
contains (String.◌∷◌ c s) part = starts_with (String.◌∷◌ c s) part || contains s part

hex_digit : ℕ → String
hex_digit d = slice "0123456789abcdef" d (d + 1)

-- `hex.EncodeToString`.
unfoldable pub hex_encode : List ℕ → String
unfolding hex_digit
hex_encode [] = ""
hex_encode (b ∷ bs) = hex_digit (b / 16) <> hex_digit (b % 16) <> hex_encode bs

-- The decimal digits of `n`, before `acc`; `n + 1` rounds are enough.
decimal_from : ℕ → ℕ → String → String
decimal_from zero n acc = acc
decimal_from (suc fuel) n acc =
    let digits = slice "0123456789" (n % 10) (n % 10 + 1) <> acc in
    let rest = decimal_from fuel (n / 10) digits in if ltb n 10 then digits else rest

-- `%d` of a number that is not negative.
unfoldable pub decimal : ℕ → String
unfolding decimal_from
decimal n = decimal_from (suc n) n ""
