-- ===== src/Mqtt/RoundTrip.antt =====
-- What the decoder makes of a packet that the encoder wrote.
use paum_io_t.Common.{ℕ, ◌^◌, ◌≤◌, ◌<◌, ◌≡◌, refl, ap, arith, true, List, some, length}
use paum_io_t.World.{Text, Env, Grants, World, M, ok, ◌>>=◌}
use paum_io_t.World.Rules.{Ensures, ok-Ensures}
use paum_io_t.Message.{Message, mqtt, same_protocol}
use paum_io_t.Message.Laws.{IsExact}
use paum_io_t.Mqtt.Format.{payload_bytes, body_bytes, packet_bytes, encoded_once}
use paum_io_t.Mqtt.Layout.{encode_publish-layout}
use paum_io_t.Mqtt.Delivery.{IsText, Carries, Never}
use paum_io_t.Mqtt.Decode.{count_errors, mqtt_adapter_decode}
use paum_io_t.Mqtt.Encode.{mqtt_encode_publish, mqtt_adapter_encode}
use paum_io_t.Mqtt.Packet.{packet-delivers}

count_errors-ok :
    {A : Type 0} (step : M A) (w : World) {a : A} {w' : World}
    → step w ≡ (ok a, w')
    → count_errors step w ≡ (ok a, w')
unfolding count_errors
count_errors-ok step w e = ground (arith, e)

encode-ok :
    (m : Message) (size : ℕ) (w : World) {packet : List ℕ} {w' : World}
    → m.protocol ≡ mqtt
    → mqtt_encode_publish m size w ≡ (ok packet, w')
    → mqtt_adapter_encode true (some m) true size true w ≡ (ok packet, w')
unfolding mqtt_adapter_encode same_protocol
encode-ok m size w p e =
    rw (ap (λ x. same_protocol x mqtt) p) (count_errors-ok (mqtt_encode_publish m size) w e)

-- A message for MQTT whose packet fits the caller's buffer and the four bytes of the remaining
-- length is encoded, and decoding the packet gives back its topic, QoS, retain flag and payload.
-- The topic is a C string of less than 65536 characters, the payload's length is right, the QoS is
-- below 4, and no request for memory fails. The protocol version is what the state has.
pub mqtt_adapter_decode-encode :
    (env : Env) (m : Message) (topic : Text) (size : ℕ) (w : World)
    → Grants env
    → m.protocol ≡ mqtt
    → m.destination ≡ some topic
    → IsText topic
    → length topic < 2 ^ 16
    → m.qos < 4
    → IsExact m.payload m.payload_len
    → length (body_bytes m topic w.mqtt) < 128 ^ 4
    → length (packet_bytes m topic w.mqtt) ≤ size
    → Ensures
        (λ r v. Carries topic m.qos m.retain (payload_bytes m.payload) r)
        Never
        ((mqtt_adapter_encode true (some m) true size true
            >>= (λ packet. mqtt_adapter_decode env true (some packet) true))
          w)
mqtt_adapter_decode-encode env m topic size w grants p d text short q exact small fits =
    ok-Ensures After Never _ _ w {a = packet_bytes m topic w.mqtt} {w' = after}
      (encode-ok m size w p
        (encode_publish-layout m topic size w d exact short (omega (arith, small)) fits))
      (packet-delivers env m topic w after grants text short q refl small)
  where
    After : Message → World → Type 0
    After r v = Carries topic m.qos m.retain (payload_bytes m.payload) r

    after : World
    after = record w { mqtt = encoded_once m.qos w.mqtt }
