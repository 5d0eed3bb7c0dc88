-- ===== src/Coap/Control.antt =====
-- The CoAP adapter's capabilities, control commands, start and end.
use Prim.Native.String.{String}
use text.Mathlib.Text.{◌==◌ as str_eq}
use paum_io_t.Common.{Bool, true, false, Option, none, some, if◌then◌else◌}
use paum_io_t.Codes.{invalid_param, not_supported}
use paum_io_t.World.{Capabilities, M, ok, err}

-- The argument says whether `capabilities` is not NULL.
unfoldable pub coap_adapter_get_capabilities : Bool → M Capabilities
coap_adapter_get_capabilities false w = (err invalid_param, w)
coap_adapter_get_capabilities true w = (
  ok (record {
    supports_qos0 = true;
    supports_qos1 = true;
    supports_qos2 = false;
    supports_retain = false;
    supports_wildcards = false;
    max_packet_size = 1152;
    max_topic_alias = 0;
  }),
  w,
)

unfoldable pub coap_adapter_handle_control : Option String → M (Unit {0})
coap_adapter_handle_control none w = (err invalid_param, w)
coap_adapter_handle_control (some command) w =
    if str_eq command "reset"
    then (ok tt, record w { coap = record (w.coap) { next_message_id = 1 } })
    else (err not_supported, w)

-- The argument says whether `adapter` is not NULL.
unfoldable pub coap_adapter_init : Bool → M (Unit {0})
coap_adapter_init false w = (err invalid_param, w)
coap_adapter_init true w = (
  ok tt,
  record w {
    coap_private = true;
    coap = record { next_message_id = 1; packets_decoded = 0; packets_encoded = 0; errors = 0 };
  },
)

unfoldable pub coap_adapter_cleanup : Bool → M (Unit {0})
coap_adapter_cleanup false w = (ok tt, w)
coap_adapter_cleanup true w = (ok tt, record w { coap_private = false })
