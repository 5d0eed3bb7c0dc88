-- ===== src/Util/Logging.antt =====
-- The logger of common/src/logging.c. What it prints on the standard error stream is a list of lines.
pub mod Filter
mod Tests
use Prim.Native.String.{String}
use paum_io_t.Common.{ℕ, ◌||◌, List, [], ◌∷◌, ◌++◌, Option, none, some, ltb, ◌==◌, if◌then◌else◌}

-- `log_level_t`; `disabled` is LOG_LEVEL_NONE.
pub data Level : Type 0 where
  debug info warn error disabled : Level

unfoldable pub level_value : Level → ℕ
level_value debug = 0
level_value info = 1
level_value warn = 2
level_value error = 3
level_value disabled = 4

-- A line: the time stamp, the level's name, the file's name, the line number and the message.
pub record Line : Type 0 where
  pub timestamp : List ℕ
  pub level : String
  pub file : List ℕ
  pub number : ℕ
  pub text : List ℕ

-- `global_log_level`, and what has been printed.
pub record Logger : Type 0 where
  pub global_log_level : Level
  pub printed : List Line

unfoldable pub log_set_level : Level → Logger → Logger
log_set_level level l = record l { global_log_level = level }

unfoldable pub log_get_level : Logger → Level
log_get_level l = l.global_log_level

-- A `log_level_t` is a number, which need not be one of the levels.
unfoldable pub log_level_string : ℕ → String
log_level_string level =
    if level == 0
    then "DEBUG"
    else if level == 1
    then "INFO"
    else if level == 2
    then "WARN"
    else if level == 3
    then "ERROR"
    else if level == 4
    then "NONE"
    else "UNKNOWN"

-- `strrchr(path, '/')`: the characters behind the last slash.
unfoldable pub after_last_slash : List ℕ → Option (List ℕ)
after_last_slash [] = none
after_last_slash (c ∷ cs) = elim (after_last_slash cs) [
  | some name ↦ some name
  | none ↦ if c == b'/' then some cs else none
]

unfoldable pub basename_simple : List ℕ → List ℕ
unfolding after_last_slash
basename_simple path = elim (after_last_slash path) [ some name ↦ name | none ↦ path ]

-- `timestamp` is what `format_timestamp` puts down, and `text` the formatted message.
unfoldable pub log_message : Level → List ℕ → ℕ → List ℕ → List ℕ → Logger → Logger
unfolding level_value log_level_string basename_simple
log_message level file line timestamp text l =
    if ltb (level_value level) (level_value l.global_log_level) || level_value level == 4
    then l
    else record l {
      printed =
          l.printed
          ++ (record {
            timestamp = timestamp;
            level = log_level_string (level_value level);
            file = basename_simple file;
            number = line;
            text = text;
          }
              ∷ []);
    }
