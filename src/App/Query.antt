-- ===== src/App/Query.antt =====
-- internal/app/app.go: how the handlers read numbers and times from a query.
use insider_one.Prelude.{ℕ, String, Option, none, some, ltb, str_eq, if◌then◌else◌}
use insider_one.Prelude.Int.{ℤ, pos, ltb_ℤ, pos_part}
use insider_one.Prelude.Parse.{atoi}
use insider_one.Prelude.Text.{trim_space}
use insider_one.Domain.{Time}

abbrev pub number_or : ℤ → Option ℤ → ℤ
number_or fallback none = fallback
number_or fallback (some n) = n

-- `parseIntDefault`
unfoldable pub parse_int_default : String → ℤ → ℤ
parse_int_default value fallback =
    if str_eq value "" then fallback else number_or fallback (atoi value)

-- The tests of `boundedLimit` on the number.
unfoldable pub bounded : ℤ → ℕ → ℕ
bounded limit max =
    if ltb_ℤ (pos 0) limit then (if ltb max (pos_part limit) then max else pos_part limit) else 50

-- `boundedLimit`, for the query's "limit".
unfoldable pub bounded_limit : String → ℕ → ℕ
unfolding parse_int_default bounded
bounded_limit value max = bounded (parse_int_default value (pos 50)) max

-- `parseTimePtr` as the handlers use it, without its error; `parse` is `time.Parse` with RFC 3339.
unfoldable pub parse_time_ptr : (String → Option Time) → String → Option Time
parse_time_ptr parse value = if str_eq (trim_space value) "" then none else parse value
