-- ===== src/Mqtt/ReadPublish.antt =====
-- The decoder on any PUBLISH packet.
use paum_io_t.Common.{
  Bool, ℕ, ◌+◌, ◌/◌, ◌^◌, ◌<◌, ◌≡◌, refl, ap, ◌∙◌, arith, not, List, [], ◌∷◌, ◌++◌, length,
  length-append, take, take_all, drop, drop-length_append, ltb, ◌==◌, append_assoc, bit_and, subst,
}
use paum_io_t.Common.Bits.{low_nibble, low_two, low_one}
use paum_io_t.World.{Text, Env, Grants, World, Result, ok, get, read, slice, fail_if, lift}
use paum_io_t.World.Rules.{Ensures, >>=-Ensures, ok-Ensures}
use paum_io_t.Codes.{invalid_param, packet_malformed}
use paum_io_t.Message.{Message}
use paum_io_t.Mqtt.Fields.{mqtt_decode_var_int}
use paum_io_t.Mqtt.VarInt.{groups, decode-groups}
use paum_io_t.Mqtt.Bounds.{read-eq-ok, slice-eq-ok}
use paum_io_t.Mqtt.Format.{
  string_bytes, id_bytes, property_section, publish_body, publish_byte, publish_packet,
}
use paum_io_t.Mqtt.Delivery.{
  IsText, Carries, Never, string-decodes, deliver-delivers, skip_packet_id-eq, skip_properties-eq,
}
use paum_io_t.Mqtt.Decode.{
  release, skip_properties, mqtt_decode_publish, decode_by_type, decode_packet,
}

release-ok {ℓ} :
    {A : Type ℓ} (topic : Text) (r : Result A) (a : A) (w : World)
    → r ≡ ok a
    → release topic r w ≡ (ok a, w)
unfolding release
release-ok topic r a w e = ap (λ x. release topic x w) e

length-body :
    (topic ids properties payload : List ℕ)
    → length (string_bytes topic ++ (ids ++ (properties ++ payload)))
      ≡ 2 + length topic + length ids + length properties + length payload
length-body topic ids properties payload = omega (
  arith,
  length-append {0} topic (ids ++ (properties ++ payload)),
  length-append {0} ids (properties ++ payload),
  length-append {0} properties payload,
)

-- The properties and the payload start behind the topic and the packet identifier.
skip-properties-eq :
    (topic ids properties payload : List ℕ) (version : ℕ)
    → length properties < 128 ^ 4
    → skip_properties
        (string_bytes topic ++ (ids ++ (property_section version properties ++ payload)))
        version
        (2 + length topic + length ids)
      ≡ ok (2 + length topic + length ids + length (property_section version properties))
skip-properties-eq topic ids properties payload version small =
    subst
      (λ n.
        skip_properties (string_bytes topic ++ (ids ++ rest)) version n
        ≡ ok (n + length (property_section version properties)))
      start
      (subst
        (λ packet.
          skip_properties packet version (length before)
          ≡ ok (length before + length (property_section version properties)))
        (append_assoc (string_bytes topic) ids rest)
        (skip_properties-eq before properties payload version small))
  where
    rest : List ℕ
    rest = property_section version properties ++ payload

    before : List ℕ
    before = string_bytes topic ++ ids

    start : length before ≡ 2 + length topic + length ids
    start = omega (arith, length-append {0} topic ids)

drop-body :
    (topic ids properties payload : List ℕ)
    → drop
        (2 + length topic + length ids + length properties)
        (string_bytes topic ++ (ids ++ (properties ++ payload)))
      ≡ payload
drop-body topic ids properties payload =
    subst (λ n. drop n (string_bytes topic ++ (ids ++ (properties ++ payload))) ≡ payload) start
      (subst (λ packet. drop (length before) packet ≡ payload) parts
        (drop-length_append before payload))
  where
    before : List ℕ
    before = (string_bytes topic ++ ids) ++ properties

    parts : before ++ payload ≡ string_bytes topic ++ (ids ++ (properties ++ payload))
    parts = simp append_assoc

    start : length before ≡ 2 + length topic + length ids + length properties
    start = omega (arith, length-append {0} topic ids, length-append {0} (topic ++ ids) properties)

slice-suffix : (xs ys : List ℕ) → slice (xs ++ ys) (length xs) (length ys) ≡ ok ys
slice-suffix xs ys =
    slice-eq-ok (xs ++ ys) (length xs) (length ys) (omega (arith, length-append {0} xs ys))
    ∙ ap ok
        (ap (take (length ys)) (drop-length_append xs ys) ∙ take_all (length ys) ys (omega arith))

module _ (env : Env) (grants : Grants env) (topic : Text) (text : IsText topic)
    (short : length topic < 2 ^ 16) where
  publish-delivers :
      (qos flags id : ℕ) (props payload : List ℕ) (w : World)
      → length props < 128 ^ 4
      → bit_and (flags / 2) 0x03 ≡ qos
      → Ensures
          (λ r v. Carries topic qos (not (bit_and flags 0x01 == 0)) payload r)
          Never
          (mqtt_decode_publish env
            (publish_body w.mqtt.protocol_version topic qos id props payload)
            flags
            w)
  unfolding mqtt_decode_publish
  publish-delivers qos flags id props payload w few q = rw q (
      ok-Ensures After Never (fail_if (ltb (length packet) 2) invalid_param) _ w {a = tt} {w' = w}
        (ground (arith, size))
        (>>=-Ensures (λ r v. (r ≡ (topic, 2 + length topic)) × (v.mqtt ≡ w.mqtt)) After Never _ _ w
          (string-decodes env grants topic (ids ++ (properties ++ payload)) w text short)
          (λ r v h. rw h.0 (
            ok-Ensures After Never _ _ v {a = 2 + length topic + length ids} {w' = v}
              (release-ok topic _ _ v
                (skip_packet_id-eq packet qos id (2 + length topic) (omega (arith, size))))
              (ok-Ensures After Never get _ v refl (
                ok-Ensures After Never _ _ v {a = 2 + length topic + length ids + length properties}
                  {w' = v}
                  (release-ok topic _ _ v
                    (rw h.1 (skip-properties-eq topic ids props payload version few)))
                  (deliver-delivers env grants packet _ topic qos _ payload v (omega (arith, size))
                    (drop-body topic ids properties payload))))))))
    where
      After : Message → World → Type 0
      After r v = Carries topic qos (not (bit_and flags 0x01 == 0)) payload r

      version : ℕ
      version = w.mqtt.protocol_version

      ids : List ℕ
      ids = id_bytes qos id

      properties : List ℕ
      properties = property_section version props

      packet : List ℕ
      packet = string_bytes topic ++ (ids ++ (properties ++ payload))

      size : length packet ≡ 2 + length topic + length ids + length properties + length payload
      size = length-body topic ids properties payload

  by_type-delivers :
      (dup : Bool) (qos : ℕ) (retain : Bool) (id : ℕ) (props payload : List ℕ) (w : World)
      → qos < 4
      → length props < 128 ^ 4
      → Ensures
          (λ r v. Carries topic qos retain payload r)
          Never
          (decode_by_type env
            (bit_and (publish_byte dup qos retain / 16) 0x0f)
            (bit_and (publish_byte dup qos retain) 0x0f)
            (publish_body w.mqtt.protocol_version topic qos id props payload)
            w)
  unfolding decode_by_type
  by_type-delivers dup qos retain id props payload w q few = rw kind (
      subst
        (λ b.
          Ensures (λ r v. Carries topic qos b payload r) Never
            (mqtt_decode_publish env
              (publish_body w.mqtt.protocol_version topic qos id props payload) flags w))
        kept (publish-delivers qos flags id props payload w few level))
    where
      flags : ℕ
      flags = bit_and (publish_byte dup qos retain) 0x0f

      kind : bit_and (publish_byte dup qos retain / 16) 0x0f ≡ 3
      kind = ground (arith, low_nibble (publish_byte dup qos retain / 16))

      level : bit_and (flags / 2) 0x03 ≡ qos
      level = ground (arith, low_nibble (publish_byte dup qos retain), low_two (flags / 2))

      kept : not (bit_and flags 0x01 == 0) ≡ retain
      kept = ground (arith, low_nibble (publish_byte dup qos retain), low_one flags)

  -- The packet behind its first byte, which may be any packet's.
  pub decode_packet-reads :
      (dup : Bool) (qos : ℕ) (retain : Bool) (id : ℕ) (props payload body : List ℕ) (w : World)
      → qos < 4
      → length props < 128 ^ 4
      → body ≡ publish_body w.mqtt.protocol_version topic qos id props payload
      → length body < 128 ^ 4
      → Ensures
          (λ r v. Carries topic qos retain payload r)
          Never
          (decode_packet env (publish_packet dup qos retain body) w)
  unfolding decode_packet
  decode_packet-reads dup qos retain id props payload body w q few e small =
      ok-Ensures After Never (lift (read packet 0)) _ w {a = first} {w' = w}
        (rw (read-eq-ok packet 0 (omega arith)) refl)
        (ok-Ensures After Never (lift (mqtt_decode_var_int packet 1)) _ w
          {a = (length body, 1 + length var)} {w' = w}
          (ap (λ r. lift r w) (decode-groups (length body) (first ∷ []) body small))
          (ok-Ensures After Never
            (fail_if (not (1 + length var + length body == length packet)) packet_malformed) _ w
            {a = tt} {w' = w} (ground (arith, length-append {0} var body))
            (ok-Ensures After Never (lift (slice packet (1 + length var) (length body))) _ w
              {a = body} {w' = w} (ap (λ r. lift r w) suffix)
              (rw e (by_type-delivers dup qos retain id props payload w q few)))))
    where
      first : ℕ
      first = publish_byte dup qos retain

      var : List ℕ
      var = groups 4 (length body)

      packet : List ℕ
      packet = first ∷ (var ++ body)

      After : Message → World → Type 0
      After r v = Carries topic qos retain payload r

      suffix : slice packet (1 + length var) (length body) ≡ ok body
      suffix =
          subst (λ n. slice packet n (length body) ≡ ok body) (omega arith)
            (slice-suffix (first ∷ var) body)
