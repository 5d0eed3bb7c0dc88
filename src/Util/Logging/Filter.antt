-- ===== src/Util/Logging/Filter.antt =====
-- What the logger prints, over any sequence of its calls, and the name that it prints for a file.
use paum_io_t.Common.{
  ℕ, ◌≡◌, refl, sym, ap, ◌∙◌, Bool, true, false, List, [], ◌∷◌, ◌++◌, append_assoc, append-nil,
  none, some, ltb, ◌==◌, ◌||◌, not, if◌then◌else◌, Bool-cases, inl, inr, All,
}
use paum_io_t.Util.Logging.{
  Level, debug, info, warn, error, disabled, level_value, Line, Logger, log_set_level,
  log_level_string, after_last_slash, basename_simple, log_message,
}

-- The calls that change the logger.
pub data Call : Type 0 where
  set_level : Level → Call
  message : Level → List ℕ → ℕ → List ℕ → List ℕ → Call

unfoldable pub run : List Call → Logger → Logger
run [] l = l
run (set_level level ∷ calls) l = run calls (log_set_level level l)
run (message level file number timestamp text ∷ calls) l =
    run calls (log_message level file number timestamp text l)

-- A message is at the threshold or above, and of a level that messages have.
unfoldable pub is_wanted : Level → Level → Bool
is_wanted threshold disabled = false
is_wanted debug level = true
is_wanted info debug = false
is_wanted info level = true
is_wanted warn warn = true
is_wanted warn error = true
is_wanted warn level = false
is_wanted error error = true
is_wanted error level = false
is_wanted disabled level = false

-- The lines of the messages that are wanted at the threshold of their time.
unfoldable pub lines : Level → List Call → List Line
lines threshold [] = []
lines threshold (set_level level ∷ calls) = lines level calls
lines threshold (message level file number timestamp text ∷ calls) =
    let rest = lines threshold calls in
    if is_wanted threshold level
    then record {
      timestamp = timestamp;
      level = log_level_string (level_value level);
      file = basename_simple file;
      number = number;
      text = text;
    }
      ∷ rest
    else rest

is_wanted-eq :
    (threshold level : Level)
    → (ltb (level_value level) (level_value threshold) || level_value level == 4)
      ≡ not (is_wanted threshold level)
unfolding is_wanted level_value
is_wanted-eq debug debug = refl
is_wanted-eq debug info = refl
is_wanted-eq debug warn = refl
is_wanted-eq debug error = refl
is_wanted-eq debug disabled = refl
is_wanted-eq info debug = refl
is_wanted-eq info info = refl
is_wanted-eq info warn = refl
is_wanted-eq info error = refl
is_wanted-eq info disabled = refl
is_wanted-eq warn debug = refl
is_wanted-eq warn info = refl
is_wanted-eq warn warn = refl
is_wanted-eq warn error = refl
is_wanted-eq warn disabled = refl
is_wanted-eq error debug = refl
is_wanted-eq error info = refl
is_wanted-eq error warn = refl
is_wanted-eq error error = refl
is_wanted-eq error disabled = refl
is_wanted-eq disabled debug = refl
is_wanted-eq disabled info = refl
is_wanted-eq disabled warn = refl
is_wanted-eq disabled error = refl
is_wanted-eq disabled disabled = refl

-- Over any sequence of calls, the logger prints a line for exactly the messages whose level is at
-- least the level that was set last before them, and is not LOG_LEVEL_NONE, in their order.
pub run-lines :
    (calls : List Call) (l : Logger)
    → (run calls l).printed ≡ l.printed ++ lines l.global_log_level calls
unfolding run lines log_set_level log_message
run-lines [] l = sym (append-nil l.printed)
run-lines (set_level level ∷ calls) l = run-lines calls (record l { global_log_level = level })
run-lines (message level file number timestamp text ∷ calls) l =
    elim (Bool-cases (is_wanted l.global_log_level level)) [
      | inl e ↦ rw e (
          ap (λ x. (run calls x).printed) (logged e)
          ∙ run-lines calls (record l { printed = l.printed ++ (line ∷ []) })
          ∙ append_assoc l.printed (line ∷ []) (lines l.global_log_level calls))
      | inr e ↦ rw e (ap (λ x. (run calls x).printed) (passed_over e) ∙ run-lines calls l)
    ]
  where
    line : Line
    line = record {
      timestamp = timestamp;
      level = log_level_string (level_value level);
      file = basename_simple file;
      number = number;
      text = text;
    }

    after : Bool → Logger
    after skipped = if skipped then l else record l { printed = l.printed ++ (line ∷ []) }

    logged :
        is_wanted l.global_log_level level ≡ true
        → log_message level file number timestamp text l ≡ after false
    logged e = ap after (is_wanted-eq l.global_log_level level ∙ ap not e)

    passed_over :
        is_wanted l.global_log_level level ≡ false
        → log_message level file number timestamp text l ≡ after true
    passed_over e = ap after (is_wanted-eq l.global_log_level level ∙ ap not e)

-- A text without a slash.
abbrev pub IsName : List ℕ → Type 0
IsName = All (λ c. (c == b'/') ≡ false)

no_slash : (name : List ℕ) → IsName name → after_last_slash name ≡ none
unfolding after_last_slash
no_slash [] h = refl
no_slash (c ∷ cs) h = rw (no_slash cs h.1, h.0) refl

last_slash :
    (directory name : List ℕ)
    → IsName name
    → after_last_slash (directory ++ (b'/' ∷ name)) ≡ some name
unfolding after_last_slash
last_slash [] name h = rw (no_slash name h) refl
last_slash (c ∷ cs) name h = rw (last_slash cs name h) refl

-- The name of a file is what stands behind the last slash of its path, or the path if it has none.
pub basename_simple-append :
    (directory name : List ℕ)
    → IsName name
    → (basename_simple name ≡ name) × (basename_simple (directory ++ (b'/' ∷ name)) ≡ name)
unfolding basename_simple
basename_simple-append directory name h = (
  rw (no_slash name h, basename_simple) refl,
  rw (last_slash directory name h, basename_simple) refl,
)
