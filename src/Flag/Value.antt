-- ===== src/Flag/Value.antt =====
-- pkg/ffflag/flag.go: the values of options and how each reads its argument.
use ffstream.Base.{
  ℕ, String, Bool, true, false, Option, none, some, List, snoc, str_eq, ◌||◌, ℤ, if◌then◌else◌,
}
use mathlib.Core.Option

-- What the values call and the repository does not hold: `humanize.ParseBytes`, the logger's
-- `Level.Set` with its `LevelDebug`, and `time.ParseDuration` (nanoseconds). `none` is an error.
pub record Readers (Level : Type 0) : Type 0 where
  pub level_debug : Level
  pub set_level : String → Option Level
  pub parse_bytes : String → Option ℕ
  pub parse_duration : String → Option ℤ

-- The types that implement `Wrapped`, with what they hold.
pub data Wrapped (Level : Type 0) : Type 0 where
  uint64 : ℕ → Wrapped Level
  string : String → Wrapped Level
  strings_as_separate_flags : List String → Wrapped Level
  bool : Bool → Wrapped Level
  log_level : Level → Wrapped Level
  duration : ℤ → Wrapped Level

-- `strconv.ParseBool`
unfoldable pub parse_bool : String → Option Bool
parse_bool s =
    if str_eq s "1"
      || str_eq s "t"
      || str_eq s "T"
      || str_eq s "TRUE"
      || str_eq s "true"
      || str_eq s "True"
    then some true
    else if str_eq s "0"
        || str_eq s "f"
        || str_eq s "F"
        || str_eq s "FALSE"
        || str_eq s "false"
        || str_eq s "False"
    then some false
    else none

module _ {Level : Type 0} (readers : Readers Level) where
  -- The `Parse` methods. On an error the value stays as it was.
  unfoldable pub parse_value : Wrapped Level → String → Option (Wrapped Level)
  unfolding parse_bool
  parse_value (uint64 v) input = Option.map uint64 (readers.parse_bytes input)
  parse_value (string v) input = some (string input)
  parse_value (strings_as_separate_flags v) input = some (strings_as_separate_flags (snoc v input))
  parse_value (bool v) input =
      if str_eq input "" then some (bool true) else Option.map bool (parse_bool input)
  parse_value (log_level v) input =
      if str_eq input "verbose"
      then some (log_level readers.level_debug)
      else Option.map log_level (readers.set_level input)
  parse_value (duration v) input = Option.map duration (readers.parse_duration input)
