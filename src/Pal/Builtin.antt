-- ===== src/Pal/Builtin.antt =====
-- The two adapters that the layer comes with: `mqtt_adapter` and `coap_adapter`.
use paum_io_t.Common.{true, some}
use paum_io_t.World.{Env}
use paum_io_t.Message.{mqtt, coap}
use paum_io_t.Mqtt.Decode.{mqtt_adapter_decode}
use paum_io_t.Mqtt.Encode.{mqtt_adapter_encode}
use paum_io_t.Mqtt.Control.{
  mqtt_adapter_get_capabilities, mqtt_adapter_handle_control, mqtt_adapter_init,
  mqtt_adapter_cleanup,
}
use paum_io_t.Coap.Decode.{coap_adapter_decode}
use paum_io_t.Coap.Encode.{coap_adapter_encode}
use paum_io_t.Coap.Control.{
  coap_adapter_get_capabilities, coap_adapter_handle_control, coap_adapter_init,
  coap_adapter_cleanup,
}
use paum_io_t.Pal.{Adapter}

abbrev pub mqtt_adapter : Env → Adapter
mqtt_adapter env = record {
  protocol_type = mqtt;
  decode = some (λ packet. mqtt_adapter_decode env true (some packet) true);
  encode =
      some (λ message packet_len. mqtt_adapter_encode true (some message) true packet_len true);
  get_capabilities = some (mqtt_adapter_get_capabilities true);
  handle_control = some mqtt_adapter_handle_control;
  init = some (mqtt_adapter_init true);
  cleanup = some (mqtt_adapter_cleanup true);
}

abbrev pub coap_adapter : Env → Adapter
coap_adapter env = record {
  protocol_type = coap;
  decode = some (λ packet. coap_adapter_decode env true (some packet) true);
  encode =
      some (λ message packet_len. coap_adapter_encode true (some message) true packet_len true);
  get_capabilities = some (coap_adapter_get_capabilities true);
  handle_control = some coap_adapter_handle_control;
  init = some (coap_adapter_init true);
  cleanup = some (coap_adapter_cleanup true);
}
