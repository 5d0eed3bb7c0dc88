-- ===== src/Message/Tests.antt =====
-- The theorems on messages at a concrete message, while memory is short.
use paum_io_t.Common.{refl, ◌==◌, arith, not, true, false, [], ◌∷◌, none, some}
use paum_io_t.World.{Grants, Env, World}
use paum_io_t.Message.{Message, mqtt, message_copy}
use paum_io_t.World.Rules.{Ensures}
use paum_io_t.Message.Copy.{IsCopy, NoError, message_copy-IsCopy}
use paum_io_t.Message.Laws.{Keeps, owned, message_copy-Keeps}

-- The fourth request for memory is refused.
abbrev short : Env
short = record { malloc = λ n. not (n == 3); uuid = λ n. 49 ∷ []; utc = λ n. none }

abbrev start : World
start = record {
  calls = 0;
  live = 5;
  mqtt = record {
    next_packet_id = 1;
    protocol_version = 4;
    session_present = false;
    packets_decoded = 0;
    packets_encoded = 0;
    errors = 0;
  };
  coap = record { next_message_id = 1; packets_decoded = 0; packets_encoded = 0; errors = 0 };
  mqtt_private = false;
  coap_private = false;
}

abbrev reading : Message
reading = record {
  message_id = some (49 ∷ []);
  timestamp = none;
  source = none;
  destination = some (97 ∷ []);
  payload = some (1 ∷ 2 ∷ 3 ∷ []);
  payload_len = 3;
  metadata = record { qos = 1; protocol = mqtt; content_type = none; retain = true; ttl = 0 };
}

message_copy-Keeps_example : Keeps owned 5 (message_copy short (some reading) start)
message_copy-Keeps_example = message_copy-Keeps short reading start (omega arith)

abbrev plenty : Env
plenty = record short { malloc = λ n. true }

plenty-Grants : Grants plenty
plenty-Grants n = refl

message_copy-IsCopy_example :
    Ensures (λ o v. IsCopy reading o) NoError (message_copy plenty (some reading) start)
message_copy-IsCopy_example =
    message_copy-IsCopy plenty reading start plenty-Grants (omega arith, refl)
