-- ===== src/Mqtt/Encode.antt =====
-- From a message to an MQTT PUBLISH packet.
use paum_io_t.Common.{
  ℕ, ◌+◌, ◌-◌, ◌*◌, ◌/◌, ◌%◌, ◌^◌, Bool, not, ◌||◌, List, [], ◌++◌, Option, none, some, length, ltb,
  leb, ◌==◌, if◌then◌else◌, bit_and, bit_or,
}
use paum_io_t.Codes.{invalid_param, buffer_overflow, protocol}
use paum_io_t.World.{
  Text, M, ok, ◌>>=◌, ◌>>◌, return, fail, fail_if, lift, get, put, store, store_all, add64,
  and_then,
}
use paum_io_t.Message.{Message, mqtt, same_protocol, load}
use paum_io_t.Mqtt.Fields.{mqtt_encode_string, mqtt_encode_var_int}
use paum_io_t.Mqtt.Decode.{packet_publish, count_errors}

-- The first byte: the packet type, the QoS and the retain flag.
unfoldable pub fixed_header : Message → ℕ
fixed_header message =
    let flags = bit_or (if message.retain then 0x01 else 0) (bit_and message.qos 0x03 * 2) in
    bit_or (packet_publish * 16) flags

-- `remaining_len` for a topic and a protocol version.
unfoldable pub remaining_length : Message → Text → ℕ → ℕ
remaining_length message topic version =
    2
    + length topic
    + (if ltb 0 message.qos then 2 else 0)
    + (if version == 5 then 1 else 0)
    + message.payload_len

-- "Packet identifier": takes the next one if the QoS is not 0.
unfoldable pub put_packet_id : ℕ → ℕ → List ℕ → M (List ℕ)
unfolding ◌>>=◌ store
put_packet_id qos buf_len out =
    if ltb 0 qos
    then (do
      fail_if (ltb buf_len (length out + 2)) buffer_overflow
      w ← get
      let packet_id = w.mqtt.next_packet_id
      put (record w { mqtt = record (w.mqtt) { next_packet_id = (packet_id + 1) % 2 ^ 16 } })
      lift
          (and_then (store buf_len (packet_id / 256) out) (store buf_len (bit_and packet_id 0xff))))
    else return out

-- "Properties (MQTT v5.0)"
unfoldable pub put_properties : ℕ → List ℕ → M (List ℕ)
unfolding ◌>>=◌ store
put_properties buf_len out = do
  w ← get
  if w.mqtt.protocol_version == 5
      then (fail_if (leb buf_len (length out)) buffer_overflow >> lift (store buf_len 0 out))
      else return out

-- "Payload"
unfoldable pub put_payload : Option (List ℕ) → ℕ → ℕ → List ℕ → M (List ℕ)
unfolding ◌>>=◌ load store_all
put_payload payload payload_len buf_len out =
    if ltb 0 payload_len
    then (do
      fail_if (ltb buf_len (length out + payload_len)) buffer_overflow
      bytes ← load payload payload_len
      lift (store_all buf_len bytes out))
    else return out

-- `g_mqtt_state.packets_encoded++`
unfoldable pub count_encoded : M (Unit {0})
count_encoded w = (
  ok tt,
  record w { mqtt = record (w.mqtt) { packets_encoded = add64 w.mqtt.packets_encoded 1 } },
)

-- From "Fixed header" on, for a destination that is not NULL. The bytes that are written;
-- `*bytes_written` is their number.
unfoldable pub write_publish : Message → Text → ℕ → M (List ℕ)
write_publish message topic buf_len = do
  fail_if (leb buf_len 0) buffer_overflow
  first ← lift (store buf_len (fixed_header message) [])
  w ← get
  let remaining_len = remaining_length message topic w.mqtt.protocol_version
  var_len ← lift (mqtt_encode_var_int (remaining_len % 2 ^ 32) (buf_len - length first))
  with_topic ← lift (mqtt_encode_string topic buf_len (first ++ var_len))
  with_id ← put_packet_id message.qos buf_len with_topic
  with_properties ← put_properties buf_len with_id
  packet ← put_payload message.payload message.payload_len buf_len with_properties
  count_encoded
  return packet

unfoldable pub mqtt_encode_publish : Message → ℕ → M (List ℕ)
mqtt_encode_publish message buf_len = elim (message.destination) [
  | none ↦ fail invalid_param
  | some topic ↦ write_publish message topic buf_len
]

-- `packet_len` is the size of the caller's buffer. The first, third and last argument say whether
-- `adapter`, `packet` and `bytes_written` are not NULL.
unfoldable pub mqtt_adapter_encode : Bool → Option Message → Bool → ℕ → Bool → M (List ℕ)
mqtt_adapter_encode adapter none packet packet_len bytes_written = fail invalid_param
mqtt_adapter_encode adapter (some message) packet packet_len bytes_written =
    if not adapter || not packet || not bytes_written
    then fail invalid_param
    else if not (same_protocol message.protocol mqtt)
    then fail protocol
    else count_errors (mqtt_encode_publish message packet_len)
