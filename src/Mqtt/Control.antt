-- ===== src/Mqtt/Control.antt =====
-- The MQTT adapter's capabilities, control commands, start and end.
use Prim.Native.String.{String}
use text.Mathlib.Text.{◌==◌ as str_eq}
use paum_io_t.Common.{Bool, true, false, Option, none, some, if◌then◌else◌}
use paum_io_t.Codes.{invalid_param, not_supported}
use paum_io_t.World.{Capabilities, M, ok, err}

-- The argument says whether `capabilities` is not NULL.
unfoldable pub mqtt_adapter_get_capabilities : Bool → M Capabilities
mqtt_adapter_get_capabilities false w = (err invalid_param, w)
mqtt_adapter_get_capabilities true w = (
  ok (record {
    supports_qos0 = true;
    supports_qos1 = true;
    supports_qos2 = true;
    supports_retain = true;
    supports_wildcards = true;
    max_packet_size = 268435455;
    max_topic_alias = 65535;
  }),
  w,
)

unfoldable pub mqtt_adapter_handle_control : Option String → M (Unit {0})
mqtt_adapter_handle_control none w = (err invalid_param, w)
mqtt_adapter_handle_control (some command) w =
    if str_eq command "reset"
    then (
      ok tt,
      record w { mqtt = record (w.mqtt) { next_packet_id = 1; session_present = false } },
    )
    else if str_eq command "set_version"
    then (ok tt, w)
    else (err not_supported, w)

-- The argument says whether `adapter` is not NULL.
unfoldable pub mqtt_adapter_init : Bool → M (Unit {0})
mqtt_adapter_init false w = (err invalid_param, w)
mqtt_adapter_init true w = (
  ok tt,
  record w {
    mqtt_private = true;
    mqtt = record {
      next_packet_id = 1;
      protocol_version = 4;
      session_present = false;
      packets_decoded = 0;
      packets_encoded = 0;
      errors = 0;
    };
  },
)

unfoldable pub mqtt_adapter_cleanup : Bool → M (Unit {0})
mqtt_adapter_cleanup false w = (ok tt, w)
mqtt_adapter_cleanup true w = (ok tt, record w { mqtt_private = false })
