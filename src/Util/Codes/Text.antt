-- ===== src/Util/Codes/Text.antt =====
-- The descriptions of the codes: common/src/errors.c.
use Prim.Native.String.{String}
use paum_io_t.Common.{none, some}
use paum_io_t.Common.Int.{ℤ}
use paum_io_t.Util.Codes.{Code, code_of_value}
use paum_io_t.Util.Codes.{
  success, invalid_param, null_pointer, out_of_memory, buffer_too_small, queue_full, queue_empty,
  not_found, already_exists, not_initialized, invalid_state, connection_lost, connection_refused,
  timeout, protocol_error, protocol_version, malformed_packet, not_supported, permission_denied,
  operation_failed, internal, unknown,
}

-- The string that the `switch` has for an enumerator.
unfoldable pub message : Code → String
message success = "Success"
message invalid_param = "Invalid parameter"
message null_pointer = "Null pointer"
message out_of_memory = "Out of memory"
message buffer_too_small = "Buffer too small"
message queue_full = "Queue is full"
message queue_empty = "Queue is empty"
message not_found = "Not found"
message already_exists = "Already exists"
message not_initialized = "Not initialized"
message invalid_state = "Invalid state"
message connection_lost = "Connection lost"
message connection_refused = "Connection refused"
message timeout = "Timeout"
message protocol_error = "Protocol error"
message protocol_version = "Protocol version not supported"
message malformed_packet = "Malformed packet"
message not_supported = "Operation not supported"
message permission_denied = "Permission denied"
message operation_failed = "Operation failed"
message internal = "Internal error"
message unknown = "Unknown error"

-- `paumiot_error_string`, which is given any number of the enumeration's type.
unfoldable pub error_string : ℤ → String
unfolding message code_of_value
error_string v = elim (code_of_value v) [ some c ↦ message c | none ↦ "Unrecognized error code" ]
