-- ===== src/Mqtt/Format.antt =====
-- The bytes of a PUBLISH packet, described apart from the code, and each step of the encoder against
-- them.
use paum_io_t.Common.{
  Bool, ℕ, zero, suc, ◌+◌, ◌*◌, ◌/◌, ◌%◌, ◌^◌, ◌≤◌, ◌<◌, ◌≡◌, refl, arith, List, [], ◌∷◌, ◌++◌,
  Option, none, some, length, length-append, take_all, ltb, ◌==◌, if◌then◌else◌, append_assoc,
  append-nil, bit_or, lt→ltb, le→leb,
}
use paum_io_t.Common.Bits.{low_byte, low_two}
use paum_io_t.World.{Text, World, MqttState, ok, store, store_all, add64}
use paum_io_t.Message.{Message}
use paum_io_t.Message.Laws.{IsExact}
use paum_io_t.Mqtt.Fields.{mqtt_encode_string}
use paum_io_t.Mqtt.VarInt.{groups}
use paum_io_t.Mqtt.Encode.{
  fixed_header, remaining_length, put_packet_id, put_properties, put_payload,
}

-- A string with its length before it.
abbrev pub string_bytes : Text → List ℕ
string_bytes s = (length s / 256) ∷ (length s % 256) ∷ s

abbrev pub id_bytes : ℕ → ℕ → List ℕ
id_bytes qos id = if ltb 0 qos then (id / 256 % 256) ∷ (id % 256) ∷ [] else []

abbrev pub property_bytes : ℕ → List ℕ
property_bytes version = if version == 5 then 0 ∷ [] else []

-- The properties of MQTT 5 with their length before them.
abbrev pub property_section : ℕ → List ℕ → List ℕ
property_section version properties =
    if version == 5 then groups 4 (length properties) ++ properties else []

-- What follows the fixed header of any PUBLISH packet.
abbrev pub publish_body : ℕ → Text → ℕ → ℕ → List ℕ → List ℕ → List ℕ
publish_body version topic qos id properties payload =
    string_bytes topic ++ (id_bytes qos id ++ (property_section version properties ++ payload))

-- The first byte of any PUBLISH packet: its type, and the flags DUP, QoS and RETAIN.
abbrev pub publish_byte : Bool → ℕ → Bool → ℕ
publish_byte dup qos retain = 48 + (if dup then 8 else 0) + qos * 2 + (if retain then 1 else 0)

-- A whole PUBLISH packet.
abbrev pub publish_packet : Bool → ℕ → Bool → List ℕ → List ℕ
publish_packet dup qos retain body = publish_byte dup qos retain ∷ (groups 4 (length body) ++ body)

abbrev pub payload_bytes : Option (List ℕ) → List ℕ
payload_bytes none = []
payload_bytes (some xs) = xs

-- What follows the fixed header.
abbrev pub body_bytes : Message → Text → MqttState → List ℕ
body_bytes m topic s =
    string_bytes topic
    ++ (id_bytes m.qos s.next_packet_id
        ++ (property_bytes s.protocol_version ++ payload_bytes m.payload))

abbrev pub first_byte : Message → ℕ
first_byte m = 48 + m.qos % 4 * 2 + (if m.retain then 1 else 0)

abbrev pub packet_bytes : Message → Text → MqttState → List ℕ
packet_bytes m topic s =
    first_byte m ∷ (groups 4 (length (body_bytes m topic s)) ++ body_bytes m topic s)

header_at :
    (q : ℕ)
    → q < 4
    → (bit_or 48 (bit_or 0x01 (q * 2)) ≡ 48 + q * 2 + 1)
      × (bit_or 48 (bit_or 0 (q * 2)) ≡ 48 + q * 2)
header_at zero h = (refl, refl)
header_at (suc zero) h = (refl, refl)
header_at (suc (suc zero)) h = (refl, refl)
header_at (suc (suc (suc zero))) h = (refl, refl)
header_at (suc (suc (suc (suc q)))) h = absurd (omega arith)

pub fixed_header-eq : (m : Message) → fixed_header m ≡ first_byte m
unfolding fixed_header
fixed_header-eq m = ground (arith, low_two m.qos, header_at (m.qos % 4))

pub store-eq-ok :
    (size b : ℕ) (out : List ℕ)
    → length out < size
    → store size b out ≡ ok (out ++ ((b % 256) ∷ []))
unfolding store
store-eq-ok size b out h = rw (lt→ltb _ _ h)

pub store_all-eq-ok :
    (size : ℕ) (bytes out : List ℕ)
    → length out + length bytes ≤ size
    → store_all size bytes out ≡ ok (out ++ bytes)
unfolding store_all
store_all-eq-ok size bytes out h = rw (le→leb _ _ h)

pub encode_string-eq-ok :
    (s : Text) (size : ℕ) (out : List ℕ)
    → length s < 2 ^ 16
    → length out + 2 + length s ≤ size
    → mqtt_encode_string s size out ≡ ok (out ++ string_bytes s)
unfolding mqtt_encode_string
encode_string-eq-ok s size out h k = ground (
  arith,
  low_byte (length s),
  take_all (length s) s,
  store-eq-ok size (length s / 256) out,
  store-eq-ok size (length s % 256) (out ++ ((length s / 256) ∷ [])),
  store_all-eq-ok size s ((out ++ ((length s / 256) ∷ [])) ++ ((length s % 256) ∷ [])),
  length-append out ((length s / 256) ∷ []),
  length-append (out ++ ((length s / 256) ∷ [])) ((length s % 256) ∷ []),
  append_assoc out ((length s / 256) ∷ []) ((length s % 256) ∷ []),
  append_assoc out ((length s / 256) ∷ (length s % 256) ∷ []) s,
)

pub put_packet_id-eq :
    (qos size : ℕ) (out : List ℕ) (w : World)
    → length out + length (id_bytes qos w.mqtt.next_packet_id) ≤ size
    → put_packet_id qos size out w ≡ (
      ok (out ++ id_bytes qos w.mqtt.next_packet_id),
      record w {
        mqtt = record (w.mqtt) {
          next_packet_id =
              if ltb 0 qos then (w.mqtt.next_packet_id + 1) % 2 ^ 16 else w.mqtt.next_packet_id;
        };
      },
    )
unfolding put_packet_id
put_packet_id-eq qos size out w h =
    let id : ℕ = w.mqtt.next_packet_id in
    ground (
      arith,
      low_byte id,
      append-nil out,
      length-append out ((id / 256 % 256) ∷ []),
      append_assoc out ((id / 256 % 256) ∷ []) ((id % 256) ∷ []),
    )

pub put_properties-eq :
    (size : ℕ) (out : List ℕ) (w : World)
    → length out + length (property_bytes w.mqtt.protocol_version) ≤ size
    → put_properties size out w ≡ (ok (out ++ property_bytes w.mqtt.protocol_version), w)
unfolding put_properties
put_properties-eq size out w h = ground (arith, append-nil out)

pub put_payload-eq :
    (p : Option (List ℕ)) (n size : ℕ) (out : List ℕ) (w : World)
    → IsExact p n
    → length out + length (payload_bytes p) ≤ size
    → put_payload p n size out w ≡ (ok (out ++ payload_bytes p), w)
unfolding put_payload
put_payload-eq none n size out w e h = ground (arith, append-nil out)
put_payload-eq (some xs) n size out w e h =
    ground (arith, take_all n xs, store_all-eq-ok size xs out)

pub length-payload_bytes :
    (p : Option (List ℕ)) (n : ℕ) → IsExact p n → n ≡ length (payload_bytes p)
length-payload_bytes none n e = e
length-payload_bytes (some xs) n e = e.1

pub length-body :
    (m : Message) (topic : Text) (s : MqttState)
    → IsExact m.payload m.payload_len
    → remaining_length m topic s.protocol_version ≡ length (body_bytes m topic s)
unfolding remaining_length
length-body m topic s e =
    let ids = id_bytes m.qos s.next_packet_id in
    let properties = property_bytes s.protocol_version in
    ground (
      arith,
      length-payload_bytes m.payload m.payload_len e,
      length-append topic (ids ++ (properties ++ payload_bytes m.payload)),
      length-append ids (properties ++ payload_bytes m.payload),
      length-append properties (payload_bytes m.payload),
    )

-- The state after a PUBLISH packet was encoded.
abbrev pub encoded_once : ℕ → MqttState → MqttState
encoded_once qos s = record s {
  next_packet_id = if ltb 0 qos then (s.next_packet_id + 1) % 2 ^ 16 else s.next_packet_id;
  packets_encoded = add64 s.packets_encoded 1;
}
