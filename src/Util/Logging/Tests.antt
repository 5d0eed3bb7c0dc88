-- ===== src/Util/Logging/Tests.antt =====
-- The theorems on the logger at concrete calls.
use paum_io_t.Common.{◌≡◌, List, [], ◌∷◌, ◌++◌}
use paum_io_t.Util.Logging.{Logger, debug, info, warn, disabled}
use paum_io_t.Util.Logging.Filter.{Call, set_level, message, run, lines, run-lines}

-- What the library starts with.
abbrev start : Logger
start = record { global_log_level = info; printed = [] }

-- Two of the four messages are printed.
abbrev calls : List Call
calls =
    message debug (97 ∷ []) 1 [] (1 ∷ [])
    ∷ message warn (97 ∷ 47 ∷ 98 ∷ []) 2 [] (2 ∷ [])
    ∷ set_level debug
    ∷ message disabled (97 ∷ []) 3 [] (3 ∷ [])
    ∷ message debug (97 ∷ []) 4 [] (4 ∷ [])
    ∷ []

run-lines_example : (run calls start).printed ≡ [] ++ lines info calls
run-lines_example = run-lines calls start
