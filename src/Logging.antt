-- ===== src/Logging.antt =====
-- internal/logging/logger.go: the levels and the logger of one. The handler and its writer are
-- log/slog's.
use insider_one.Prelude.{String, ◌||◌, str_eq, if◌then◌else◌}
use insider_one.Prelude.Int.{ℤ, pos, negsuc}
use insider_one.Prelude.Text.{to_lower, trim_space, ◌<>◌}
use insider_one.Runtime.{Result, ok, err}

-- `slog.LevelInfo` and the others are -4, 0, 4 and 8.
abbrev pub level_debug : ℤ
level_debug = negsuc 3

abbrev pub level_info : ℤ
level_info = pos 0

abbrev pub level_warn : ℤ
level_warn = pos 4

abbrev pub level_error : ℤ
level_error = pos 8

-- `slog.Level(100)`, above every level that is logged at.
abbrev pub level_off : ℤ
level_off = pos 100

-- `%q` of the level is a parameter.
parse_lowered : (String → String) → String → String → Result ℤ
parse_lowered quote level s =
    if str_eq s "" || str_eq s "info"
    then ok level_info
    else if str_eq s "debug"
    then ok level_debug
    else if str_eq s "warn" || str_eq s "warning"
    then ok level_warn
    else if str_eq s "error"
    then ok level_error
    else if str_eq s "off" || (str_eq s "none" || str_eq s "disabled")
    then ok level_off
    else err ("unsupported log level " <> quote level)

-- `ParseLevel`
unfoldable pub parse_level : (String → String) → String → Result ℤ
unfolding parse_lowered
parse_level quote level = parse_lowered quote level (to_lower (trim_space level))

-- What the logger is made with: the least level that is logged, and its `service` attribute.
pub record Logger : Type 0 where
  pub level : ℤ
  pub service : String

-- `NewWithWriter`, which `New` calls with os.Stdout
unfoldable pub new : (String → String) → String → Result Logger
new quote level = elim (parse_level quote level) [
  | ok handler_level ↦ ok (record { level = handler_level; service = "insider-one-notifications" })
  | err e ↦ err e
]
