-- ===== src/Mqtt/Decode.antt =====
-- From an MQTT packet to a message. A pointer argument that is only tested for NULL is a `Bool`.
use paum_io_t.Common.{◌-◌, ◌^◌, leb}
use paum_io_t.Common.{
  ℕ, ◌+◌, ◌/◌, Bool, not, ◌||◌, List, Option, none, some, length, ltb, ◌==◌, if◌then◌else◌, bit_and,
}
use paum_io_t.Codes.{
  is_success, invalid_param, packet_malformed, out_of_memory, protocol_unsupported,
  invalid_packet_type,
}
use paum_io_t.World.{
  Text, Env, M, Result, ok, err, fault, ◌>>=◌, ◌>>◌, return, fail, fail_if, lift, get, freed, read,
  slice, add64, and_then,
}
use paum_io_t.Message.{Message, mqtt, message_create, message_free, set_payload}
use paum_io_t.Mqtt.Fields.{mqtt_decode_string, mqtt_decode_var_int, read_u16}

-- `mqtt_packet_type_t`, as far as the `switch` names it.
abbrev pub packet_connect : ℕ
packet_connect = 1

abbrev pub packet_publish : ℕ
packet_publish = 3

abbrev pub packet_subscribe : ℕ
packet_subscribe = 8

abbrev pub packet_unsubscribe : ℕ
packet_unsubscribe = 10

-- `free(topic); return e;`
unfoldable pub release {ℓ} : {A : Type ℓ} → Text → Result A → M A
release topic (ok a) w = (ok a, w)
release topic (err e) w = (err e, freed (some topic) w)
release topic fault w = (fault, w)

-- The position after the packet identifier, which stands there if the QoS is not 0.
unfoldable pub skip_packet_id : List ℕ → ℕ → ℕ → Result ℕ
skip_packet_id packet qos pos =
    if ltb 0 qos
    then (if ltb (length packet) (pos + 2)
        then err packet_malformed
        else and_then (read_u16 packet pos) (λ packet_id. ok (pos + 2)))
    else ok pos

-- The position after the properties, which MQTT 5 has.
unfoldable pub skip_properties : List ℕ → ℕ → ℕ → Result ℕ
skip_properties packet version pos =
    if version == 5
    then and_then (mqtt_decode_var_int packet pos) (λ (prop_len, pos').
      if ltb (length packet) (pos' + prop_len) then err packet_malformed else ok (pos' + prop_len))
    else ok pos

-- `g_mqtt_state.packets_decoded++`
unfoldable pub count_decoded : M (Unit {0})
count_decoded w = (
  ok tt,
  record w { mqtt = record (w.mqtt) { packets_decoded = add64 w.mqtt.packets_decoded 1 } },
)

-- Every error after the first three tests of the adapter is counted: `g_mqtt_state.errors++`.
unfoldable pub count_errors {ℓ} : {A : Type ℓ} → M A → M A
count_errors m w =
    let (r, w') = m w in
    elim r [
      | ok a ↦ (ok a, w')
      | err e ↦ (err e, record w' { mqtt = record (w'.mqtt) { errors = add64 w'.mqtt.errors 1 } })
      | fault ↦ (fault, w')
    ]

-- `a - b` of two `size_t`, which starts over below 0.
abbrev pub size_minus : ℕ → ℕ → ℕ
size_minus a b = if leb b a then a - b else a + 2 ^ 64 - b

module _ (env : Env) where
  -- "Copy payload": the bytes from `pos` on, which `message_set_payload` reads; on an error the message
  -- is freed.
  unfoldable pub attach_payload : Message → List ℕ → ℕ → M Message
  attach_payload msg packet pos =
      let payload_len = size_minus (length packet) pos in
      if ltb 0 payload_len
      then (do
        bytes ← lift (slice packet pos payload_len)
        (code, msg') ← set_payload env msg (some bytes) payload_len
        if is_success code then return msg' else (message_free (some msg') >> fail code))
      else return msg

  -- From "Create message" on.
  unfoldable pub deliver : List ℕ → ℕ → Text → ℕ → Bool → M Message
  deliver packet pos topic qos retain = do
    created ← message_create env
    elim created [
      | none ↦ release topic (err out_of_memory)
      | some fresh ↦ do
        msg ←
            attach_payload
              (record fresh {
                destination = some topic;
                metadata = record (fresh.metadata) { protocol = mqtt; qos = qos; retain = retain };
              })
              packet pos
        count_decoded
        return msg
    ]

  unfoldable pub mqtt_decode_publish : List ℕ → ℕ → M Message
  mqtt_decode_publish packet flags = do
    fail_if (ltb (length packet) 2) invalid_param
    (topic, after_topic) ← mqtt_decode_string env packet 0
    let qos = bit_and (flags / 2) 0x03
    let retain = not (bit_and flags 0x01 == 0)
    after_id ← release topic (skip_packet_id packet qos after_topic)
    w ← get
    pos ← release topic (skip_properties packet w.mqtt.protocol_version after_id)
    deliver packet pos topic qos retain

  -- `switch (packet_type)`
  unfoldable pub decode_by_type : ℕ → ℕ → List ℕ → M Message
  decode_by_type packet_type flags body =
      if packet_type == packet_publish
      then mqtt_decode_publish body flags
      else if packet_type == packet_connect
          || packet_type == packet_subscribe
          || packet_type == packet_unsubscribe
      then fail protocol_unsupported
      else fail invalid_packet_type

  -- From "Parse fixed header" on.
  unfoldable pub decode_packet : List ℕ → M Message
  decode_packet packet = do
    packet_type_flags ← lift (read packet 0)
    let packet_type = bit_and (packet_type_flags / 16) 0x0f
    let flags = bit_and packet_type_flags 0x0f
    (remaining_len, pos) ← lift (mqtt_decode_var_int packet 1)
    fail_if (not (pos + remaining_len == length packet)) packet_malformed
    body ← lift (slice packet pos remaining_len)
    decode_by_type packet_type flags body

  unfoldable pub mqtt_adapter_decode : Bool → Option (List ℕ) → Bool → M Message
  mqtt_adapter_decode adapter none message = fail invalid_param
  mqtt_adapter_decode adapter (some packet) message =
      if not adapter || ltb (length packet) 2 || not message
      then fail invalid_param
      else count_errors (decode_packet packet)
