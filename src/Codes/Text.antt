-- ===== src/Codes/Text.antt =====
-- The descriptions of the codes: src/common/errors.c.
use Prim.Native.String.{String}
use paum_io_t.Common.{none, some}
use paum_io_t.Common.Int.{ℤ}
use paum_io_t.Codes.{Code, code_of_value}
use paum_io_t.Codes.{
  success, general, invalid_param, null_pointer, out_of_memory, buffer_overflow, timeout,
  not_initialized, already_initialized, not_supported, permission_denied, network,
  connection_failed, connection_lost, connection_refused, socket_error, bind_failed, listen_failed,
  accept_failed, protocol, protocol_unknown, protocol_unsupported, packet_malformed,
  packet_too_large, invalid_packet_type, protocol_violation, mqtt, mqtt_invalid_protocol,
  mqtt_invalid_client_id, mqtt_invalid_topic, mqtt_invalid_qos, mqtt_subscription_failed,
  mqtt_publish_failed, mqtt_auth_failed, coap, coap_invalid_method, coap_invalid_option,
  coap_invalid_uri, coap_blockwise_error, coap_observe_error, data_error, database_connection,
  database_query, sensor_error, device_not_found, data_validation, security, tls_init,
  tls_handshake, certificate_error, auth_failed, encryption_failed, config, config_file_not_found,
  config_parse_error, config_validation_error, smp, pdl, pal, bll, dal,
}

-- The string that the `switch` has for an enumerator.
unfoldable pub message : Code → String
message success = "Success"
message general = "General error"
message invalid_param = "Invalid parameter"
message null_pointer = "Null pointer"
message out_of_memory = "Out of memory"
message buffer_overflow = "Buffer overflow"
message timeout = "Timeout"
message not_initialized = "Not initialized"
message already_initialized = "Already initialized"
message not_supported = "Not supported"
message permission_denied = "Permission denied"
message network = "Network error"
message connection_failed = "Connection failed"
message connection_lost = "Connection lost"
message connection_refused = "Connection refused"
message socket_error = "Socket error"
message bind_failed = "Bind failed"
message listen_failed = "Listen failed"
message accept_failed = "Accept failed"
message protocol = "Protocol error"
message protocol_unknown = "Unknown protocol"
message protocol_unsupported = "Unsupported protocol"
message packet_malformed = "Malformed packet"
message packet_too_large = "Packet too large"
message invalid_packet_type = "Invalid packet type"
message protocol_violation = "Protocol violation"
message mqtt = "MQTT error"
message mqtt_invalid_protocol = "Invalid MQTT protocol"
message mqtt_invalid_client_id = "Invalid MQTT client ID"
message mqtt_invalid_topic = "Invalid MQTT topic"
message mqtt_invalid_qos = "Invalid MQTT QoS"
message mqtt_subscription_failed = "MQTT subscription failed"
message mqtt_publish_failed = "MQTT publish failed"
message mqtt_auth_failed = "MQTT authentication failed"
message coap = "CoAP error"
message coap_invalid_method = "Invalid CoAP method"
message coap_invalid_option = "Invalid CoAP option"
message coap_invalid_uri = "Invalid CoAP URI"
message coap_blockwise_error = "CoAP blockwise error"
message coap_observe_error = "CoAP observe error"
message data_error = "Data error"
message database_connection = "Database connection error"
message database_query = "Database query error"
message sensor_error = "Sensor error"
message device_not_found = "Device not found"
message data_validation = "Data validation error"
message security = "Security error"
message tls_init = "TLS initialization error"
message tls_handshake = "TLS handshake error"
message certificate_error = "Certificate error"
message auth_failed = "Authentication failed"
message encryption_failed = "Encryption failed"
message config = "Configuration error"
message config_file_not_found = "Configuration file not found"
message config_parse_error = "Configuration parse error"
message config_validation_error = "Configuration validation error"
message smp = "State Management Plane error"
message pdl = "Protocol Demultiplexing Layer error"
message pal = "Protocol Adaptation Layer error"
message bll = "Business Logic Layer error"
message dal = "Data Acquisition Layer error"

-- `paumiot_error_string`, which is given any number of the enumeration's type.
unfoldable pub error_string : ℤ → String
unfolding message code_of_value
error_string v = elim (code_of_value v) [ some c ↦ message c | none ↦ "Unknown error" ]
