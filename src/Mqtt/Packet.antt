-- ===== src/Mqtt/Packet.antt =====
-- The decoder of the adapter on any PUBLISH packet, and on one that the encoder wrote.
use paum_io_t.Common.{
  ℕ, ◌^◌, ◌<◌, ◌≤◌, ◌≡◌, refl, sym, ap, ◌∙◌, arith, Bool, true, false, List, [], ◌∷◌, ◌++◌, some,
  length, length-append, ◌==◌, Bool-cases, inl, inr, le→ltb_false, subst,
}
use paum_io_t.World.{Text, Env, Grants, World, M}
use paum_io_t.World.Rules.{Ensures}
use paum_io_t.Message.{Message}
use paum_io_t.Mqtt.VarInt.{groups}
use paum_io_t.Mqtt.Format.{
  string_bytes, id_bytes, property_bytes, property_section, payload_bytes, first_byte, body_bytes,
  packet_bytes, publish_body, publish_byte, publish_packet,
}
use paum_io_t.Mqtt.Delivery.{IsText, Carries, Never}
use paum_io_t.Mqtt.Decode.{decode_packet, count_errors, mqtt_adapter_decode}
use paum_io_t.Mqtt.ReadPublish.{decode_packet-reads}

count_errors-Ensures :
    {A : Type 0} (P : A → World → Type 0) (step : M A) (w : World)
    → Ensures P Never (step w)
    → Ensures P Never (count_errors step w)
unfolding count_errors
count_errors-Ensures P step w h = ground arith

module _ (env : Env) (grants : Grants env) (topic : Text) (text : IsText topic)
    (short : length topic < 2 ^ 16) where
  body-reads :
      (dup : Bool) (qos : ℕ) (retain : Bool) (id : ℕ) (properties payload body : List ℕ) (w : World)
      → qos < 4
      → length properties < 128 ^ 4
      → body ≡ publish_body w.mqtt.protocol_version topic qos id properties payload
      → length body < 128 ^ 4
      → Ensures
          (λ r v. Carries topic qos retain payload r)
          Never
          (mqtt_adapter_decode env true (some (publish_packet dup qos retain body)) true w)
  unfolding mqtt_adapter_decode
  body-reads dup qos retain id properties payload body w q few e small =
      rw
        (le→ltb_false (length packet) 2
          (omega (arith, size, length-append {0} (groups 4 (length body)) body)))
        (count_errors-Ensures After (decode_packet env packet) w (
          decode_packet-reads env grants topic text short dup qos retain id properties payload body
            w q few e small))
    where
      packet : List ℕ
      packet = publish_packet dup qos retain body

      size : 2 ≤ length body
      size = rw e (omega arith)

      After : Message → World → Type 0
      After r v = Carries topic qos retain payload r

-- Whatever the flags DUP and RETAIN, the QoS, the packet identifier, the properties of MQTT 5 and the
-- payload are, a PUBLISH packet whose remaining length fits in four bytes is read as a message with its
-- topic, QoS, retain flag and payload. The topic has less than 65536 characters, none of them 0, and
-- no request for memory fails. A QoS of 3, which MQTT forbids, is read too.
pub mqtt_adapter_decode-reads :
    (env : Env) (topic : Text) (dup : Bool) (qos : ℕ) (retain : Bool) (id : ℕ)
    (properties payload : List ℕ) (w : World)
    → Grants env
    → IsText topic
    → length topic < 2 ^ 16
    → qos < 4
    → length properties < 128 ^ 4
    → length (publish_body w.mqtt.protocol_version topic qos id properties payload) < 128 ^ 4
    → Ensures
        (λ r v. Carries topic qos retain payload r)
        Never
        (mqtt_adapter_decode env true
          (some (
            publish_packet dup qos retain
              (publish_body w.mqtt.protocol_version topic qos id properties payload)))
          true
          w)
mqtt_adapter_decode-reads env topic dup qos retain id properties payload w grants text short q few
      small =
    body-reads env grants topic text short dup qos retain id properties payload _ w q few refl small

-- A packet without properties has only their length.
section-empty : (version : ℕ) → property_section version [] ≡ property_bytes version
unfolding groups
section-empty version = elim (Bool-cases (version == 5)) [ inl e ↦ rw e refl | inr e ↦ rw e refl ]

first_byte-eq : (m : Message) → m.qos < 4 → publish_byte false m.qos m.retain ≡ first_byte m
first_byte-eq m q = ground arith

-- What the encoder writes is such a packet.
pub packet-delivers :
    (env : Env) (m : Message) (topic : Text) (w w' : World)
    → Grants env
    → IsText topic
    → length topic < 2 ^ 16
    → m.qos < 4
    → w'.mqtt.protocol_version ≡ w.mqtt.protocol_version
    → length (body_bytes m topic w.mqtt) < 128 ^ 4
    → Ensures
        (λ r v. Carries topic m.qos m.retain (payload_bytes m.payload) r)
        Never
        (mqtt_adapter_decode env true (some (packet_bytes m topic w.mqtt)) true w')
packet-delivers env m topic w w' grants text short q same small =
    subst
      (λ b.
        Ensures After Never
          (mqtt_adapter_decode env true (some (b ∷ (groups 4 (length body) ++ body))) true w'))
      (first_byte-eq m q)
      (body-reads env grants topic text short false m.qos m.retain w.mqtt.next_packet_id []
        (payload_bytes m.payload) body w' q (omega arith)
        (ap
            (λ section.
              string_bytes topic
              ++ (id_bytes m.qos w.mqtt.next_packet_id ++ (section ++ payload_bytes m.payload)))
            (sym (section-empty w.mqtt.protocol_version))
          ∙ ap
              (λ version.
                publish_body version topic m.qos w.mqtt.next_packet_id [] (payload_bytes m.payload))
              (sym same))
        small)
  where
    body : List ℕ
    body = body_bytes m topic w.mqtt

    After : Message → World → Type 0
    After r v = Carries topic m.qos m.retain (payload_bytes m.payload) r
