-- ===== src/Pal/Relay.antt =====
-- A message that goes out through the adapter table, and whose packet comes back in through it.
mod Tests
use paum_io_t.Common.{
  ℕ, ◌+◌, ◌^◌, ◌≤◌, ◌<◌, ◌≡◌, refl, sym, ap, ◌∙◌, subst, arith, true, List, [], ◌∷◌, Option, none,
  some, length, All, ltb, if◌then◌else◌,
}
use paum_io_t.Codes.{Code, not_supported}
use paum_io_t.World.{Text, Env, Grants, World, M, Result, ok, err, fault, ◌>>=◌, add64}
use paum_io_t.World.Rules.{Ensures}
use paum_io_t.Message.{Message, Protocol, mqtt, coap, same_protocol}
use paum_io_t.Message.Laws.{IsExact}
use paum_io_t.Mqtt.Format.{payload_bytes, body_bytes, packet_bytes as mqtt_bytes}
use paum_io_t.Mqtt.Delivery.{Never, IsText, Carries}
use paum_io_t.Mqtt.RoundTrip.{mqtt_adapter_decode-encode}
use paum_io_t.Coap.Path.{segments}
use paum_io_t.Coap.Written.{packet_bytes}
use paum_io_t.Coap.Making.{Says}
use paum_io_t.Coap.Rebuilding.{joined}
use paum_io_t.Coap.RoundTrip.{coap_adapter_decode-encode}
use paum_io_t.Pal.{Adapter, Stats, Context, Outcome}
use paum_io_t.Pal.Builtin.{mqtt_adapter, coap_adapter}
use paum_io_t.Pal.Table.{lookup}
use paum_io_t.Pal.Registry.{table}
use paum_io_t.Pal.Traffic.{measure, decode_packet, encode_message}
use paum_io_t.Pal.Dispatch.{
  sent, received, dispatch, decode_packet-dispatch, encode_message-dispatch,
}

-- `pal_decode_packet` of what `pal_encode_message` wrote, if it wrote a packet.
abbrev decode_reply : Protocol → Outcome (List ℕ) → Outcome Message
decode_reply p (ok packet, ctx, w) = decode_packet ctx p packet w
decode_reply p (err e, ctx, w) = (err e, ctx, w)
decode_reply p (fault, ctx, w) = (fault, ctx, w)

unfoldable pub relay : Context → Message → ℕ → World → Outcome Message
relay ctx m size w = decode_reply m.protocol (encode_message ctx m size w)

-- A packet of `n` bytes was sent and received.
abbrev pub exchanged : ℕ → Stats → Stats
exchanged n s = record s {
  messages_received = add64 s.messages_received 1;
  messages_sent = add64 s.messages_sent 1;
  bytes_received = add64 s.bytes_received n;
  bytes_sent = add64 s.bytes_sent n;
}

-- A message that satisfies `P` came back, and both calls are counted.
pub record Relayed (P : Message → Type 0) (xs : List Adapter) (stats : Stats) (o : Outcome Message)
    : Type 0 where
  pub message : Message
  pub size : ℕ
  pub returns : o.0 ≡ ok message
  pub holds : P message
  pub counted : o.1 ≡ table xs (exchanged size stats)

decoded-Relayed :
    (P : Message → Type 0) (xs : List Adapter) (stats : Stats) (packet : List ℕ)
    (r : Result Message) (w : World)
    → Ensures (λ m v. P m) Never (r, w)
    → Relayed P xs stats (
      r,
      table xs (received (measure (λ _. length packet) r) (sent (ok (length packet)) stats)),
      w,
    )
decoded-Relayed P xs stats packet (ok m) w h = record {
  message = m;
  size = length packet;
  returns = refl;
  holds = h;
  counted = refl;
}
decoded-Relayed P xs stats packet (err e) w h = absurd h
decoded-Relayed P xs stats packet fault w h = absurd h

module _ (P : Message → Type 0) (xs : List Adapter) (a : Adapter) (decode : List ℕ → M Message)
    (p : Protocol) (found : lookup p xs ≡ some a) (d : a.decode ≡ some decode) where
  decode-eq :
      (stats : Stats) (packet : List ℕ) (w : World)
      → decode_packet (table xs stats) p packet w ≡ (
        (decode packet w).0,
        table xs (received (measure (λ _. length packet) (decode packet w).0) stats),
        (decode packet w).1,
      )
  decode-eq stats packet w =
      decode_packet-dispatch xs stats p packet w
      ∙ ap
          (λ o.
            dispatch o (λ b. b.decode) (λ f. f packet)
              (λ r. received (measure (λ _. length packet) r)) xs stats w)
          found
      ∙ ap
          (λ (o : Option (List ℕ → M Message)). elim o as (λ _. Outcome Message) [
            | none ↦ (err not_supported, table xs stats, w)
            | some f ↦ (
              (f packet w).0,
              table xs (received (measure (λ _. length packet) (f packet w).0) stats),
              (f packet w).1,
            )
          ])
          d

  reply-Relayed :
      (stats : Stats) (r : Result (List ℕ)) (v : World)
      → Ensures (λ m u. P m) Never (◌>>=◌ (λ _. (r, v)) decode v)
      → Relayed P xs stats (decode_reply p (r, table xs (sent (measure length r) stats), v))
  unfolding ◌>>=◌
  reply-Relayed stats (ok packet) v h =
      subst (λ o. Relayed P xs stats o) (sym (decode-eq (sent (ok (length packet)) stats) packet v))
        (decoded-Relayed P xs stats packet (decode packet v).0 (decode packet v).1 h)
  reply-Relayed stats (err e) v h = absurd h
  reply-Relayed stats fault v h = absurd h

-- If an adapter is registered whose decoder, run on what its encoder writes, gives a message with a
-- property, then so do the two calls of the layer, and both are counted.
pub relay-Relayed :
    (P : Message → Type 0) (xs : List Adapter) (stats : Stats) (a : Adapter)
    (encode : Message → ℕ → M (List ℕ)) (decode : List ℕ → M Message) (m : Message) (size : ℕ)
    (w : World)
    → lookup m.protocol xs ≡ some a
    → a.encode ≡ some encode
    → a.decode ≡ some decode
    → Ensures (λ r v. P r) Never ((encode m size >>= decode) w)
    → Relayed P xs stats (relay (table xs stats) m size w)
unfolding relay ◌>>=◌
relay-Relayed P xs stats a encode decode m size w found e d h =
    subst (λ o. Relayed P xs stats (decode_reply m.protocol o)) (sym written)
      (reply-Relayed P xs a decode m.protocol found d stats (encode m size w).0 (encode m size w).1
        h)
  where
    written : encode_message (table xs stats) m size w ≡ (
      (encode m size w).0,
      table xs (sent (measure length (encode m size w).0) stats),
      (encode m size w).1,
    )
    written =
        encode_message-dispatch xs stats m size w
        ∙ ap
            (λ o.
              dispatch o (λ b. b.encode) (λ f. f m size) (λ r. sent (measure length r)) xs stats w)
            found
        ∙ ap
            (λ (o : Option (Message → ℕ → M (List ℕ))). elim o as (λ _. Outcome (List ℕ)) [
              | none ↦ (err not_supported, table xs stats, w)
              | some f ↦ (
                (f m size w).0,
                table xs (sent (measure length (f m size w).0) stats),
                (f m size w).1,
              )
            ])
            e

abbrev pub both : Env → List Adapter
both env = mqtt_adapter env ∷ coap_adapter env ∷ []

-- With both adapters of the program registered, an MQTT message whose packet fits comes back
-- through the table with its topic, QoS, retain flag and payload, and the statistics count a packet
-- in each direction. The conditions are those of the adapter's round trip.
pub relay-mqtt :
    (env : Env) (stats : Stats) (m : Message) (topic : Text) (size : ℕ) (w : World)
    → Grants env
    → m.protocol ≡ mqtt
    → m.destination ≡ some topic
    → IsText topic
    → length topic < 2 ^ 16
    → m.qos < 4
    → IsExact m.payload m.payload_len
    → length (body_bytes m topic w.mqtt) < 128 ^ 4
    → length (mqtt_bytes m topic w.mqtt) ≤ size
    → Relayed
        (Carries topic m.qos m.retain (payload_bytes m.payload))
        (both env)
        stats
        (relay (table (both env) stats) m size w)
unfolding lookup same_protocol
relay-mqtt env stats m topic size w grants p d text short q exact small fits =
    relay-Relayed (Carries topic m.qos m.retain (payload_bytes m.payload)) (both env) stats
      (mqtt_adapter env) _ _ m size w (ap (λ k. lookup k (both env)) p) refl refl
      (mqtt_adapter_decode-encode env m topic size w grants p d text short q exact small fits)

-- In the same way a message for CoAP comes back, its destination with one slash before each segment
-- and its QoS as 0 or 1.
pub relay-coap :
    (env : Env) (stats : Stats) (m : Message) (destination : Text) (size : ℕ) (w : World)
    → Grants env
    → m.protocol ≡ coap
    → m.destination ≡ some destination
    → IsText destination
    → 0 < length (segments destination)
    → All (λ s. length s < 2 ^ 16) (segments destination)
    → IsExact m.payload m.payload_len
    → length (packet_bytes m destination w.coap) ≤ size
    → Relayed
        (Says
          (joined (segments destination))
          (if ltb 0 m.qos then 1 else 0)
          (payload_bytes m.payload))
        (both env)
        stats
        (relay (table (both env) stats) m size w)
unfolding lookup same_protocol
relay-coap env stats m destination size w grants p d text some_segment short exact fits =
    relay-Relayed
      (Says (joined (segments destination)) (if ltb 0 m.qos then 1 else 0)
        (payload_bytes m.payload))
      (both env) stats (coap_adapter env) _ _ m size w (ap (λ k. lookup k (both env)) p) refl refl
      (coap_adapter_decode-encode env m destination size w grants p d text some_segment short exact
        fits)
