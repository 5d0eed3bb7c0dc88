-- ===== src/Coap/Tests.antt =====
-- The theorems on the CoAP adapter at concrete bytes.
use paum_io_t.Codes.{packet_malformed}
use paum_io_t.Coap.Blocks.{option_blocks}
use paum_io_t.Coap.Leak.{malformed_option-live}
use paum_io_t.Common.{
  ℕ, ◌≡◌, ◌≤◌, ◌<◌, ◌+◌, ◌^◌, ◌++◌, All, refl, replicate, length-replicate, take, some, arith, true,
  false, none, List, [], ◌∷◌, length,
}
use paum_io_t.World.{Text, Env, World, ok, ◌>>=◌}
use paum_io_t.World.Rules.{Ensures}
use paum_io_t.Message.{Message, coap}
use paum_io_t.Mqtt.Delivery.{Never}
use paum_io_t.Coap.Decode.{coap_adapter_decode}
use paum_io_t.Coap.Encode.{coap_adapter_encode}
use paum_io_t.Coap.Path.{segments, fields, non_empty}
use paum_io_t.Coap.Layout.{path_bytes}
use paum_io_t.Coap.Written.{packet_bytes, encoded_once, coap_adapter_encode-layout}
use paum_io_t.Coap.Making.{Says}
use paum_io_t.Coap.Rebuilding.{joined}
use paum_io_t.Coap.RoundTrip.{coap_adapter_decode-encode}
use paum_io_t.Coap.Handlers.{Invalid}
use paum_io_t.Coap.Format.{
  header_of, options_bytes, options_from, NumberedValue, IsReadable, bytes_of, message_bytes,
  message_from,
}
use paum_io_t.Coap.ReadMessage.{coap_decode_message-reads}
use paum_io_t.Coap.EmptyOption.{coap_decode_message-empty_option}
use paum_io_t.Coap.Encode.{encode_option}
use paum_io_t.Coap.Parse.{decode_option}
use paum_io_t.Coap.Format.{option_from}
use paum_io_t.Coap.LongSegment.{decode-encode_long_segment}
use paum_io_t.Coap.Room.{Written, Failed, coap_adapter_encode_lem}
use paum_io_t.Coap.Delivery.{Delivered, Refused, coap_adapter_decode_lem}
use paum_io_t.Coap.Parse.{coap_decode_message}
use paum_io_t.Coap.Bounds.{Safe, coap_decode_message-Safe}

abbrev plenty : Env
plenty = record { malloc = λ n. true; uuid = λ n. 49 ∷ []; utc = λ n. none }

abbrev start : World
start = record {
  calls = 0;
  live = 0;
  mqtt = record {
    next_packet_id = 1;
    protocol_version = 4;
    session_present = false;
    packets_decoded = 0;
    packets_encoded = 0;
    errors = 0;
  };
  coap = record { next_message_id = 1; packets_decoded = 0; packets_encoded = 0; errors = 0 };
  mqtt_private = false;
  coap_private = false;
}

-- A GET request for the path /ab with the payload 7.
abbrev request : List ℕ
request = 64 ∷ 1 ∷ 0 ∷ 9 ∷ 178 ∷ 97 ∷ 98 ∷ 255 ∷ 7 ∷ []

coap_decode_message-Safe_example :
    Safe (λ m. length m.token ≤ 8) (coap_decode_message plenty request start)
coap_decode_message-Safe_example = coap_decode_message-Safe plenty request start

-- The destination /ab//c.
abbrev destination : Text
destination = 47 ∷ 97 ∷ 98 ∷ 47 ∷ 47 ∷ 99 ∷ []

abbrev reading : Message
reading = record {
  message_id = none;
  timestamp = none;
  source = none;
  destination = some destination;
  payload = some (1 ∷ 2 ∷ 3 ∷ []);
  payload_len = 3;
  metadata = record { qos = 2; protocol = coap; content_type = none; retain = false; ttl = 0 };
}

segments-destination : segments destination ≡ (97 ∷ 98 ∷ []) ∷ (99 ∷ []) ∷ []
unfolding fields non_empty
segments-destination = refl

-- The packet of `reading`.
packet-reading :
    packet_bytes reading destination start.coap
    ≡ 64 ∷ 1 ∷ 0 ∷ 1 ∷ 178 ∷ 97 ∷ 98 ∷ 1 ∷ 99 ∷ 255 ∷ 1 ∷ 2 ∷ 3 ∷ []
unfolding fields non_empty path_bytes
packet-reading = refl

packet-fits : length (packet_bytes reading destination start.coap) ≤ 32
unfolding fields non_empty path_bytes
packet-fits = omega arith

segments-short : All (λ s. length s < 2 ^ 16) (segments destination)
unfolding fields non_empty
segments-short = (omega arith, (omega arith, tt))

segments-some : 0 < length (segments destination)
unfolding fields non_empty
segments-some = omega arith

coap_adapter_decode-encode_example :
    Ensures
      (λ r v. Says (joined (segments destination)) 1 (1 ∷ 2 ∷ 3 ∷ []) r)
      Never
      ((coap_adapter_encode true (some reading) true 32 true
          >>= (λ packet. coap_adapter_decode plenty true (some packet) true))
        start)
coap_adapter_decode-encode_example =
    coap_adapter_decode-encode plenty reading destination 32 start (λ n. refl) refl refl
      (omega arith, (omega arith, (omega arith, (omega arith, (omega arith, (omega arith, tt))))))
      segments-some segments-short (omega arith, refl) packet-fits

coap_adapter_encode-layout_example : coap_adapter_encode true (some reading) true 32 true start ≡ (
  ok (packet_bytes reading destination start.coap),
  record start { coap = encoded_once start.coap },
)
coap_adapter_encode-layout_example =
    coap_adapter_encode-layout reading destination 32 start refl refl (omega arith, refl)
      segments-short packet-fits

coap_adapter_encode_lem_example :
    Ensures
      (Written 9 start)
      (Failed start)
      (coap_adapter_encode true (some reading) true 9 true start)
coap_adapter_encode_lem_example =
    coap_adapter_encode_lem true reading true 9 true start (omega arith)

coap_adapter_decode_lem_example :
    Ensures
      (Delivered start)
      (Refused start)
      (coap_adapter_decode plenty true (some request) true start)
coap_adapter_decode_lem_example = coap_adapter_decode_lem plenty true (some request) true start

-- `reading` sent to /.
abbrev to_root : Message
to_root = record reading { destination = some (47 ∷ []) }

-- A Uri-Path option, an empty Content-Format option and a Size1 option.
abbrev three_options : List NumberedValue
three_options = (11, 97 ∷ []) ∷ (12, []) ∷ (60, 5 ∷ []) ∷ []

three_options-IsReadable : IsReadable 0 three_options (255 ∷ 1 ∷ 2 ∷ [])
unfolding IsReadable
three_options-IsReadable = omega arith

coap_decode_message-reads_example :
    Ensures
      (λ p v. p ≡ message_from 0 (7 ∷ 8 ∷ []) 2 258 three_options (some (1 ∷ 2 ∷ [])) 2)
      Never
      (coap_decode_message plenty
        (message_bytes 0 (7 ∷ 8 ∷ []) 2 258 three_options (some (1 ∷ 2 ∷ [])))
        start)
coap_decode_message-reads_example =
    coap_decode_message-reads plenty 0 (7 ∷ 8 ∷ []) 2 258 three_options (some (1 ∷ 2 ∷ [])) 2 start
      (λ n. refl) (omega arith) (omega arith) (omega arith) three_options-IsReadable
      (omega arith, refl)

one_option-IsReadable : IsReadable 0 ((11, 97 ∷ []) ∷ []) (bytes_of 11 12 [])
unfolding IsReadable
one_option-IsReadable = omega arith

coap_decode_message-empty_option_example :
    Ensures
      (λ p v. ⊥)
      Invalid
      (coap_decode_message plenty
        (message_bytes 0 (7 ∷ []) 1 258 ((11, 97 ∷ []) ∷ (12, []) ∷ []) none)
        start)
coap_decode_message-empty_option_example =
    coap_decode_message-empty_option plenty 0 (7 ∷ []) 1 258 ((11, 97 ∷ []) ∷ []) 12 start
      (λ n. refl) (omega arith) (omega arith) (omega arith) one_option-IsReadable (omega arith)

-- 65539 times the letter a.
unfoldable long_segment : Text
long_segment = replicate (2 ^ 16 + 3) 97

length-long_segment : length long_segment ≡ 2 ^ 16 + 3
unfolding long_segment
length-long_segment = length-replicate {A = ℕ} (2 ^ 16 + 3) 97

decode-encode_long_segment_example :
    (encoded : List ℕ) × (encode_option long_segment 0 70000 (64 ∷ 1 ∷ 0 ∷ 9 ∷ [])
      ≡ ok ((64 ∷ 1 ∷ 0 ∷ 9 ∷ []) ++ encoded))
    × Ensures
        (λ r v. (r.0 ≡ option_from 11 (take 3 long_segment)) × (r.1 + 2 ^ 16 ≡ 4 + length encoded))
        Never
        (decode_option plenty ((64 ∷ 1 ∷ 0 ∷ 9 ∷ []) ++ (encoded ++ (255 ∷ []))) 4 0 0 start)
decode-encode_long_segment_example =
    decode-encode_long_segment plenty long_segment 3 0 0 70000 (64 ∷ 1 ∷ 0 ∷ 9 ∷ []) (255 ∷ [])
      start (λ n. refl) length-long_segment (omega arith) (omega arith)
      (omega (arith, length-long_segment))

-- A Content-Format option of two bytes, and two segments, the first of them empty.
abbrev described_options : List NumberedValue
described_options = (11, []) ∷ (11, 97 ∷ []) ∷ (12, 0 ∷ 50 ∷ []) ∷ []

three_options-before : IsReadable 0 three_options (240 ∷ 0 ∷ [])
unfolding IsReadable
three_options-before = omega arith

malformed_option-live_example :
    Ensures
      (λ r v. ⊥)
      (λ e v.
        (e ≡ packet_malformed) × (v.live ≡ start.live + option_blocks (options_from three_options)))
      (coap_adapter_decode plenty true
        (some (
          header_of 0 (7 ∷ []) 1 9
          ++ ((7 ∷ []) ++ (options_bytes 0 three_options ++ ((240 + 0) ∷ (0 ∷ []))))))
        true
        start)
malformed_option-live_example =
    malformed_option-live plenty 0 (7 ∷ []) 1 9 three_options 0 0 [] start (λ n. refl) (omega arith)
      (omega arith) (omega arith) (omega arith) three_options-before
