-- ===== src/Util/Codes.antt =====
-- The result codes of the common utilities: common/include/types.h and common/include/errors.h.
pub mod Text
pub mod Laws
use paum_io_t.Common.{Bool, not, List, [], ◌∷◌, Option, none, some, if◌then◌else◌}
use paum_io_t.Common.Int.{ℤ, pos, negsuc, neg, int_eq, is_negative}

-- `paumiot_result_t`
pub data Code : Type 0 where
  success invalid_param null_pointer out_of_memory buffer_too_small queue_full queue_empty not_found
        already_exists not_initialized invalid_state connection_lost connection_refused timeout
        protocol_error protocol_version malformed_packet not_supported permission_denied
        operation_failed internal unknown :
      Code

-- The number that an enumerator stands for.
unfoldable pub value : Code → ℤ
value success = pos 0
value invalid_param = neg 1
value null_pointer = neg 2
value out_of_memory = neg 3
value buffer_too_small = neg 4
value queue_full = neg 5
value queue_empty = neg 6
value not_found = neg 7
value already_exists = neg 8
value not_initialized = neg 9
value invalid_state = neg 10
value connection_lost = neg 11
value connection_refused = neg 12
value timeout = neg 13
value protocol_error = neg 14
value protocol_version = neg 15
value malformed_packet = neg 16
value not_supported = neg 17
value permission_denied = neg 18
value operation_failed = neg 19
value internal = neg 20
value unknown = neg 21

-- Every enumerator, in the order of the declaration.
abbrev pub all_codes : List Code
all_codes =
    success ∷ invalid_param ∷ null_pointer ∷ out_of_memory ∷ buffer_too_small ∷ queue_full
    ∷ queue_empty ∷ not_found ∷ already_exists ∷ not_initialized ∷ invalid_state ∷ connection_lost
    ∷ connection_refused ∷ timeout ∷ protocol_error ∷ protocol_version ∷ malformed_packet
    ∷ not_supported ∷ permission_denied ∷ operation_failed ∷ internal ∷ unknown ∷ []

abbrev find_value : ℤ → List Code → Option Code
unfolding value
find_value v [] = none
find_value v (c ∷ cs) = if int_eq (value c) v then some c else find_value v cs

-- The enumerator that a number stands for: the label that a `switch` on it takes.
unfoldable pub code_of_value : ℤ → Option Code
unfolding value
code_of_value v = find_value v all_codes

-- `paumiot_is_success`
unfoldable pub is_success : Code → Bool
unfolding value
is_success c = int_eq (value c) (pos 0)

-- `paumiot_is_error`
unfoldable pub is_error : Code → Bool
unfolding value
is_error c = is_negative (value c)
