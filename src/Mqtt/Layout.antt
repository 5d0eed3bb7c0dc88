-- ===== src/Mqtt/Layout.antt =====
-- The packet that the MQTT encoder writes.
use paum_io_t.Mqtt.Format.{
  string_bytes, id_bytes, property_bytes, payload_bytes, body_bytes, first_byte, packet_bytes,
  fixed_header-eq, store-eq-ok, encode_string-eq-ok, put_packet_id-eq, put_properties-eq,
  put_payload-eq, length-body, encoded_once,
}
use paum_io_t.Common.{
  ℕ, ◌+◌, ◌-◌, ◌%◌, ◌^◌, ◌≤◌, ◌<◌, ◌≡◌, refl, ap, ◌∙◌, arith, List, [], ◌∷◌, ◌++◌, Option, none,
  some, length, length-append, leb, append_assoc,
}
use paum_io_t.World.{Text, World, M, ok, ◌>>=◌, store, get, fail, fail_if, lift}
use paum_io_t.World.Rules.{>>=-ok}
use paum_io_t.Codes.{buffer_overflow, invalid_param}
use paum_io_t.Message.{Message}
use paum_io_t.Message.Laws.{IsExact}
use paum_io_t.Mqtt.Fields.{mqtt_encode_string, mqtt_encode_var_int}
use paum_io_t.Mqtt.VarInt.{groups, encode_var_int-groups}
use paum_io_t.Mqtt.Encode.{
  fixed_header, remaining_length, put_packet_id, put_properties, put_payload, count_encoded,
  mqtt_encode_publish, write_publish,
}

-- The lengths of the parts, which come one after the other.
length-parts :
    (a : ℕ) (var topic ids properties payload : List ℕ)
    → length (a ∷ (var ++ (string_bytes topic ++ (ids ++ (properties ++ payload)))))
      ≡ 3 + length var + length topic + length ids + length properties + length payload
length-parts a var topic ids properties payload = omega (
  arith,
  length-append {0} var (string_bytes topic ++ (ids ++ (properties ++ payload))),
  length-append {0} topic (ids ++ (properties ++ payload)),
  length-append {0} ids (properties ++ payload),
  length-append {0} properties payload,
)

append-parts :
    (a : ℕ) (var topic ids properties payload : List ℕ)
    → ((((a ∷ var) ++ topic) ++ ids) ++ properties) ++ payload
      ≡ a ∷ (var ++ (topic ++ (ids ++ (properties ++ payload))))
append-parts a var topic ids properties payload = simp append_assoc

write_publish-layout :
    (m : Message) (topic : Text) (size : ℕ) (w : World)
    → IsExact m.payload m.payload_len
    → length topic < 2 ^ 16
    → length (body_bytes m topic w.mqtt) < 2 ^ 32
    → length (packet_bytes m topic w.mqtt) ≤ size
    → write_publish m topic size w
      ≡ (ok (packet_bytes m topic w.mqtt), record w { mqtt = encoded_once m.qos w.mqtt })
unfolding write_publish
write_publish-layout m topic size w e short small fits =
    >>=-ok (fail_if (leb size 0) buffer_overflow) _ w {a = tt} {w' = w} (ground arith)
    ∙ >>=-ok (lift (store size (fixed_header m) [])) _ w {a = first_byte m ∷ []} {w' = w}
        (ground (arith, fixed_header-eq m, store-eq-ok size (fixed_header m) []))
    ∙ >>=-ok get _ w refl
    ∙ >>=-ok
        (lift (
          mqtt_encode_var_int (remaining_length m topic w.mqtt.protocol_version % 2 ^ 32)
            (size - 1)))
        _ w {a = var} {w' = w}
        (rw (length-body m topic w.mqtt e) (
          ground
            (arith, encode_var_int-groups (length body) (size - 1), length-append {0} var body)))
    ∙ >>=-ok (lift (mqtt_encode_string topic size (first_byte m ∷ var))) _ w {a = with_topic}
        {w' = w}
        (rw (encode_string-eq-ok topic size (first_byte m ∷ var) short (omega (arith, sizes))))
    ∙ >>=-ok (put_packet_id m.qos size with_topic) _ w
        (put_packet_id-eq m.qos size with_topic w (omega (arith, sizes, length-topic)))
    ∙ >>=-ok (put_properties size (with_topic ++ ids)) _ w1 (
        put_properties-eq size (with_topic ++ ids) w1
          (omega (arith, sizes, length-topic, length-append {0} with_topic ids)))
    ∙ >>=-ok (put_payload m.payload m.payload_len size ((with_topic ++ ids) ++ properties)) _ w1 (
        put_payload-eq m.payload m.payload_len size ((with_topic ++ ids) ++ properties) w1 e (
          omega (
            arith,
            sizes,
            length-topic,
            length-append {0} with_topic ids,
            length-append {0} (with_topic ++ ids) properties,
          )))
    ∙ unfold count_encoded ◌>>=◌ in
      ap (λ bytes. (ok bytes, w2))
        (append-parts (first_byte m) var (string_bytes topic) ids properties payload)
  where
    ids : List ℕ
    ids = id_bytes m.qos w.mqtt.next_packet_id

    properties : List ℕ
    properties = property_bytes w.mqtt.protocol_version

    payload : List ℕ
    payload = payload_bytes m.payload

    body : List ℕ
    body = body_bytes m topic w.mqtt

    var : List ℕ
    var = groups 4 (length body)

    with_topic : List ℕ
    with_topic = (first_byte m ∷ var) ++ string_bytes topic

    w1 : World
    w1 = record w {
      mqtt = record (w.mqtt) { next_packet_id = (encoded_once m.qos w.mqtt).next_packet_id };
    }

    w2 : World
    w2 = record w { mqtt = encoded_once m.qos w.mqtt }

    sizes : 3 + length var + length topic + length ids + length properties + length payload ≤ size
    sizes = omega (arith, length-parts (first_byte m) var topic ids properties payload)

    length-topic : length with_topic ≡ 3 + length var + length topic
    length-topic = omega (arith, length-append {0} (first_byte m ∷ var) (string_bytes topic))

-- A message whose packet fits the buffer is encoded as its layout says. The packet identifier is
-- used up exactly if the QoS is not 0, and the packet is counted. The message has a destination of
-- less than 65536 characters, its payload's length is right, and what follows the fixed header has
-- less than 2 ^ 32 bytes.
pub encode_publish-layout :
    (m : Message) (topic : Text) (size : ℕ) (w : World)
    → m.destination ≡ some topic
    → IsExact m.payload m.payload_len
    → length topic < 2 ^ 16
    → length (body_bytes m topic w.mqtt) < 2 ^ 32
    → length (packet_bytes m topic w.mqtt) ≤ size
    → mqtt_encode_publish m size w
      ≡ (ok (packet_bytes m topic w.mqtt), record w { mqtt = encoded_once m.qos w.mqtt })
unfolding mqtt_encode_publish
encode_publish-layout m topic size w d e short small fits =
    ap
      (λ (o : Option Text).
        (elim o as (λ _. M (List ℕ)) [
          | none ↦ fail invalid_param
          | some t ↦ write_publish m t size
        ])
          w)
      d
    ∙ write_publish-layout m topic size w e short small fits
