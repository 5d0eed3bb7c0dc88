-- ===== src/Codes/Tests.antt =====
-- The theorems on the result codes at concrete codes.
use paum_io_t.Common.{◌≡◌, not}
use paum_io_t.Codes.{timeout, is_success, is_error}
use paum_io_t.Codes.Laws.{is_error-not_success}

is_error-not_success_example : is_error timeout ≡ not (is_success timeout)
is_error-not_success_example = is_error-not_success timeout
