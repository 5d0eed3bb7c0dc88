-- ===== src/Util/Codes/Laws.antt =====
-- What the result codes of the common utilities and their descriptions satisfy.
use Prim.Native.String.{String}
use text.Mathlib.Text.{◌==◌ as str_eq}
use paum_io_t.Common.{◌≡◌, ◌≢◌, refl, sym, ap, ◌∙◌, Option, none, some, List, [], ◌∷◌}
use paum_io_t.Common.{not, if◌then◌else◌}
use mathlib.Core.Option.{some-injective}
use paum_io_t.Util.Codes.{Code, success, value, all_codes, code_of_value, is_success, is_error}
use paum_io_t.Util.Codes.Text.{message, error_string}

code_of_value-value : (c : Code) → code_of_value (value c) ≡ some c
unfolding code_of_value
code_of_value-value success = refl
code_of_value-value _ = refl

-- No two enumerators stand for the same number.
pub value-injective : (a b : Code) → value a ≡ value b → a ≡ b
value-injective a b h =
    some-injective a b (sym (code_of_value-value a) ∙ ap code_of_value h ∙ code_of_value-value b)

-- A code is an error exactly when it is not a success.
pub is_error-not_success : (c : Code) → is_error c ≡ not (is_success c)
unfolding is_error is_success
is_error-not_success success = refl
is_error-not_success _ = refl

error_string-value : (c : Code) → error_string (value c) ≡ message c
unfolding error_string
error_string-value c = rw (code_of_value-value c, error_string)

find_message : String → List Code → Option Code
find_message s [] = none
find_message s (c ∷ cs) = if str_eq (message c) s then some c else find_message s cs

find_message-message : (c : Code) → find_message (message c) all_codes ≡ some c
unfolding find_message message
find_message-message success = refl
find_message-message _ = refl

find_message-unknown : find_message "Unrecognized error code" all_codes ≡ none
unfolding find_message message
find_message-unknown = refl

-- The description of a code tells it from every other code and from a number that is no code.
pub error_string-injective :
    (a b : Code)
    → (error_string (value a) ≡ error_string (value b) → a ≡ b)
      × (error_string (value a) ≢ "Unrecognized error code")
error_string-injective a b = (
  λ h. some-injective a b (
      sym (find_message-message a)
      ∙ ap (λ s. find_message s all_codes) (sym (error_string-value a) ∙ h ∙ error_string-value b)
      ∙ find_message-message b),
  λ h. cc (
    find_message-message a,
    find_message-unknown,
    ap (λ s. find_message s all_codes) (sym (error_string-value a) ∙ h),
  ),
)
