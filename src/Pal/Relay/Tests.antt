-- ===== src/Pal/Relay/Tests.antt =====
-- Messages through the adapter table with the two adapters of the program.
use paum_io_t.Common.{
  ◌^◌, ◌<◌, ◌≤◌, ◌≡◌, refl, arith, true, false, [], ◌∷◌, none, some, length, All,
}
use paum_io_t.World.{Text, Env, World}
use paum_io_t.Message.{Message, mqtt, coap}
use paum_io_t.Mqtt.VarInt.{groups}
use paum_io_t.Mqtt.Format.{packet_bytes as mqtt_bytes}
use paum_io_t.Mqtt.Delivery.{Carries, IsText}
use paum_io_t.Coap.Path.{segments, fields, non_empty}
use paum_io_t.Coap.Layout.{path_bytes}
use paum_io_t.Coap.Written.{packet_bytes}
use paum_io_t.Coap.Making.{Says}
use paum_io_t.Coap.Rebuilding.{joined}
use paum_io_t.World.Rules.{Ensures}
use paum_io_t.Mqtt.Control.{mqtt_adapter_cleanup}
use paum_io_t.Coap.Control.{coap_adapter_cleanup}
use paum_io_t.Pal.{call, no_stats}
use paum_io_t.Pal.Cleanup.{KeepsBlocks, cleaned, pal_cleanup-cleaned}
use paum_io_t.Pal.Table.{lookup}
use paum_io_t.Pal.Registry.{table}
use paum_io_t.Pal.Traffic.{pal_cleanup, measure, encode_message}
use paum_io_t.Pal.Dispatch.{sent, dispatch, encode_message-dispatch}
use paum_io_t.Pal.Relay.{Relayed, relay, both, relay-mqtt, relay-coap}

abbrev plenty : Env
plenty = record { malloc = λ n. true; uuid = λ n. 49 ∷ []; utc = λ n. none }

abbrev start : World
start = record {
  calls = 0;
  live = 0;
  mqtt = record {
    next_packet_id = 1;
    protocol_version = 4;
    session_present = false;
    packets_decoded = 0;
    packets_encoded = 0;
    errors = 0;
  };
  coap = record { next_message_id = 1; packets_decoded = 0; packets_encoded = 0; errors = 0 };
  mqtt_private = false;
  coap_private = false;
}

-- The destination a/b.
abbrev topic : Text
topic = 97 ∷ 47 ∷ 98 ∷ []

topic-IsText : IsText topic
topic-IsText = (omega arith, (omega arith, (omega arith, tt)))

abbrev reading : Message
reading = record {
  message_id = none;
  timestamp = none;
  source = none;
  destination = some topic;
  payload = some (1 ∷ 2 ∷ 3 ∷ []);
  payload_len = 3;
  metadata = record { qos = 1; protocol = mqtt; content_type = none; retain = true; ttl = 0 };
}

abbrev request : Message
request = record reading { metadata = record (reading.metadata) { protocol = coap } }

mqtt_bytes-fit : length (mqtt_bytes reading topic start.mqtt) ≤ 64
unfolding groups
mqtt_bytes-fit = omega arith

packet_bytes-fit : length (packet_bytes request topic start.coap) ≤ 64
unfolding fields non_empty path_bytes
packet_bytes-fit = omega arith

segments-some : 0 < length (segments topic)
unfolding fields non_empty
segments-some = omega arith

segments-short : All (λ s. length s < 2 ^ 16) (segments topic)
unfolding fields non_empty
segments-short = (omega arith, (omega arith, tt))

relay-mqtt_example :
    Relayed
      (Carries topic 1 true (1 ∷ 2 ∷ 3 ∷ []))
      (both plenty)
      no_stats
      (relay (table (both plenty) no_stats) reading 64 start)
relay-mqtt_example =
    relay-mqtt plenty no_stats reading topic 64 start (λ n. refl) refl refl topic-IsText
      (omega arith) (omega arith) (omega arith, refl) (omega arith) mqtt_bytes-fit

relay-coap_example :
    Relayed
      (Says (joined (segments topic)) 1 (1 ∷ 2 ∷ 3 ∷ []))
      (both plenty)
      no_stats
      (relay (table (both plenty) no_stats) request 64 start)
relay-coap_example =
    relay-coap plenty no_stats request topic 64 start (λ n. refl) refl refl topic-IsText
      segments-some segments-short (omega arith, refl) packet_bytes-fit

encode_message-dispatch_example :
    encode_message (table (both plenty) no_stats) request 64 start
    ≡ dispatch
        (lookup coap (both plenty))
        (λ a. a.encode)
        (λ f. f request 64)
        (λ r. sent (measure length r))
        (both plenty)
        no_stats
        start
encode_message-dispatch_example = encode_message-dispatch (both plenty) no_stats request 64 start

-- Neither adapter of the program releases memory.
both-KeepBlocks : All KeepsBlocks (both plenty)
both-KeepBlocks = (
  λ w. unfold call mqtt_adapter_cleanup in refl,
  (λ w. unfold call coap_adapter_cleanup in refl, tt),
)

pal_cleanup-cleaned_example :
    Ensures
      (λ u v.
        (v ≡ record (cleaned (both plenty) (record start { live = 2 })) { live = 0 })
        × ((cleaned (both plenty) (record start { live = 2 })).live ≡ 2))
      (λ e v. ⊥)
      (pal_cleanup (some (table (both plenty) no_stats)) (record start { live = 2 }))
pal_cleanup-cleaned_example =
    pal_cleanup-cleaned (both plenty) no_stats 0 (record start { live = 2 }) both-KeepBlocks
      (omega arith)
