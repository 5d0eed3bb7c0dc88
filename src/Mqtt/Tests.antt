-- ===== src/Mqtt/Tests.antt =====
-- The theorems on the MQTT adapter at concrete packets.
use paum_io_t.Message.{same_protocol}
use paum_io_t.Common.{◌==◌}
use paum_io_t.Mqtt.Bounds.{HasSmallFifth}
use paum_io_t.World.{fault}
use paum_io_t.Common.{zero, suc, All, inl, drop, bit_and}
use paum_io_t.Common.{
  ℕ, ◌+◌, ◌≤◌, ◌≡◌, refl, arith, true, false, List, [], ◌∷◌, ◌++◌, none, some, length,
}
use paum_io_t.World.{Text, Env, World, ok, ◌>>=◌}
use paum_io_t.World.Rules.{Ensures, At}
use paum_io_t.Message.{Message, mqtt}
use paum_io_t.Message.Laws.{blocks}
use paum_io_t.Mqtt.Fields.{mqtt_decode_var_int, mqtt_encode_var_int}
use paum_io_t.Mqtt.Overlong.{decode-encode_overlong}
use paum_io_t.Mqtt.VarInt.{groups}
use paum_io_t.Mqtt.Decode.{mqtt_adapter_decode}
use paum_io_t.Mqtt.Encode.{mqtt_adapter_encode, mqtt_encode_publish}
use paum_io_t.Mqtt.Memory.{decoded_once, failed_once, mqtt_adapter_decode_lem}
use paum_io_t.Mqtt.Format.{packet_bytes, encoded_once, publish_body, publish_packet}
use paum_io_t.Mqtt.Layout.{encode_publish-layout}
use paum_io_t.Mqtt.Delivery.{Carries, Never}
use paum_io_t.Mqtt.Room.{Written, Failed, mqtt_adapter_encode_lem}
use paum_io_t.Mqtt.Packet.{mqtt_adapter_decode-reads}
use paum_io_t.Mqtt.RoundTrip.{mqtt_adapter_decode-encode}

abbrev plenty : Env
plenty = record { malloc = λ n. true; uuid = λ n. 49 ∷ []; utc = λ n. none }

abbrev start : World
start = record {
  calls = 0;
  live = 0;
  mqtt = record {
    next_packet_id = 258;
    protocol_version = 5;
    session_present = false;
    packets_decoded = 0;
    packets_encoded = 0;
    errors = 0;
  };
  coap = record { next_message_id = 1; packets_decoded = 0; packets_encoded = 0; errors = 0 };
  mqtt_private = false;
  coap_private = false;
}

abbrev topic : Text
topic = 97 ∷ 47 ∷ 98 ∷ []

abbrev reading : Message
reading = record {
  message_id = none;
  timestamp = none;
  source = none;
  destination = some topic;
  payload = some (1 ∷ 2 ∷ 3 ∷ []);
  payload_len = 3;
  metadata = record { qos = 1; protocol = mqtt; content_type = none; retain = true; ttl = 0 };
}

-- The packet of `reading`.
abbrev packet : List ℕ
packet = 51 ∷ 11 ∷ 0 ∷ 3 ∷ 97 ∷ 47 ∷ 98 ∷ 1 ∷ 2 ∷ 0 ∷ 1 ∷ 2 ∷ 3 ∷ []

packet-fits : length (packet_bytes reading topic start.mqtt) ≤ 64
unfolding groups
packet-fits = omega arith

mqtt_adapter_decode-encode_example :
    Ensures
      (λ r v. Carries topic 1 true (1 ∷ 2 ∷ 3 ∷ []) r)
      Never
      ((mqtt_adapter_encode true (some reading) true 64 true
          >>= (λ p. mqtt_adapter_decode plenty true (some p) true))
        start)
mqtt_adapter_decode-encode_example =
    mqtt_adapter_decode-encode plenty reading topic 64 start (λ n. refl) refl refl
      (omega arith, (omega arith, (omega arith, tt))) (omega arith) (omega arith)
      (omega arith, refl) (omega arith) packet-fits

ends-HasSmallFifth :
    (bytes : List ℕ)
    → All (λ b. (bit_and b 0x80 == 0) ≡ true) bytes
    → (i : ℕ) → HasSmallFifth 4 (drop i bytes)
ends-HasSmallFifth [] h zero = tt
ends-HasSmallFifth [] h (suc i) = tt
ends-HasSmallFifth (b ∷ bs) h zero = inl (h.0)
ends-HasSmallFifth (b ∷ bs) h (suc i) = ends-HasSmallFifth bs (h.1) i

-- Every byte of the packet ends a number.
packet-ends : All (λ b. (bit_and b 0x80 == 0) ≡ true) packet
packet-ends = (
  refl,
  (
    refl,
    (refl, (refl, (refl, (refl, (refl, (refl, (refl, (refl, (refl, (refl, (refl, tt))))))))))),
  ),
)

mqtt_adapter_decode_lem_example :
    Ensures
      (λ r w'. At (start.live + blocks r) (decoded_once start.mqtt) start.coap w')
      (λ e w'. At start.live (failed_once start.mqtt) start.coap w')
      (mqtt_adapter_decode plenty true (some packet) true start)
mqtt_adapter_decode_lem_example =
    mqtt_adapter_decode_lem plenty true (some packet) true start
      (ends-HasSmallFifth packet packet-ends 1, λ five i. ends-HasSmallFifth packet packet-ends i)

encode_publish-layout_example : mqtt_encode_publish reading 64 start ≡ (
  ok (packet_bytes reading topic start.mqtt),
  record start { mqtt = encoded_once 1 start.mqtt },
)
encode_publish-layout_example =
    encode_publish-layout reading topic 64 start refl (omega arith, refl) (omega arith)
      (omega arith) packet-fits

packet-packet_bytes : packet_bytes reading topic start.mqtt ≡ packet
unfolding groups
packet-packet_bytes = refl

-- Sent again, with a QoS of 3, three bytes of properties and the payload 7.
publish-fits : length (publish_body 5 topic 3 258 (1 ∷ 2 ∷ 3 ∷ []) (7 ∷ [])) ≤ 64
unfolding groups
publish-fits = omega arith

mqtt_adapter_decode-reads_example :
    Ensures
      (λ r v. Carries topic 3 false (7 ∷ []) r)
      Never
      (mqtt_adapter_decode plenty true
        (some (publish_packet true 3 false (publish_body 5 topic 3 258 (1 ∷ 2 ∷ 3 ∷ []) (7 ∷ []))))
        true
        start)
mqtt_adapter_decode-reads_example =
    mqtt_adapter_decode-reads plenty topic true 3 false 258 (1 ∷ 2 ∷ 3 ∷ []) (7 ∷ []) start
      (λ n. refl) (omega arith, (omega arith, (omega arith, tt))) (omega arith) (omega arith)
      (omega arith) (omega (arith, publish-fits))

decode-encode_overlong_example :
    (encoded : List ℕ) × (mqtt_encode_var_int 2147483648 5 ≡ ok encoded)
    × (mqtt_decode_var_int ((48 ∷ []) ++ (encoded ++ (7 ∷ []))) 1 ≡ fault)
decode-encode_overlong_example =
    decode-encode_overlong 2147483648 5 (48 ∷ []) (7 ∷ []) (omega arith) (omega arith) (omega arith)

mqtt_adapter_encode_lem_example :
    Ensures
      (Written 9 1 start)
      (Failed true 1 start)
      (mqtt_adapter_encode true (some reading) true 9 true start)
unfolding same_protocol
mqtt_adapter_encode_lem_example =
    mqtt_adapter_encode_lem true reading true 9 true start (omega arith)
