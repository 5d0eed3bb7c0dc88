-- ===== src/Coap/Written.antt =====
-- The whole packet that the CoAP encoder writes.
use paum_io_t.Common.{
  ℕ, ◌+◌, ◌/◌, ◌%◌, ◌^◌, ◌≤◌, ◌<◌, ◌≡◌, ap, ◌∙◌, subst, arith, true, List, [], ◌∷◌, ◌++◌, Option,
  none, some, length, length-append, append_assoc, append-nil, take_all, ltb, if◌then◌else◌, All,
}
use paum_io_t.Common.Bits.{low_byte}
use paum_io_t.Codes.{invalid_param}
use paum_io_t.World.{Text, World, CoapState, M, ok, ◌>>=◌, add64, fail, lift, store}
use paum_io_t.World.Rules.{>>=-ok}
use paum_io_t.Message.{Message, coap, same_protocol, load}
use paum_io_t.Message.Laws.{IsExact}
use paum_io_t.Mqtt.Bounds.{slice-eq-ok}
use paum_io_t.Mqtt.Format.{store-eq-ok, store_all-eq-ok}
use paum_io_t.Coap.Encode.{
  encode_header, encode_path, encode_payload, encode_message, count_encoded, strip_slash,
  coap_adapter_encode,
}
use paum_io_t.Coap.Path.{segments, segments-strip_slash}
use paum_io_t.Coap.Layout.{path_bytes, encode_path-eq}

-- Version 1, the type of a confirmable message if the QoS is not 0, no token, the code of GET and
-- the message identifier.
abbrev pub header_bytes : ℕ → ℕ → List ℕ
header_bytes qos id = (if ltb 0 qos then 64 else 80) ∷ 1 ∷ (id / 256 % 256) ∷ (id % 256) ∷ []

-- The marker stands before a payload that has bytes.
abbrev pub marked_bytes : Option (List ℕ) → List ℕ
marked_bytes none = []
marked_bytes (some xs) = 0xff ∷ xs

abbrev pub packet_bytes : Message → Text → CoapState → List ℕ
packet_bytes m destination c =
    header_bytes m.qos c.next_message_id
    ++ (path_bytes 0 (segments destination) ++ marked_bytes m.payload)

-- The state after a packet was encoded.
abbrev pub encoded_once : CoapState → CoapState
encoded_once c = record c {
  next_message_id = (c.next_message_id + 1) % 2 ^ 16;
  packets_encoded = add64 c.packets_encoded 1;
}

abbrev pub numbered : World → World
numbered w = record w {
  coap = record (w.coap) { next_message_id = (w.coap.next_message_id + 1) % 2 ^ 16 };
}

encode_header-eq :
    (m : Message) (size : ℕ) (w : World)
    → 4 ≤ size
    → encode_header m size w ≡ (ok (header_bytes m.qos w.coap.next_message_id), numbered w)
unfolding encode_header store ◌>>=◌
encode_header-eq m size w h = ground (arith, low_byte w.coap.next_message_id)

payload_of-eq :
    (m : Message) (p : Option (List ℕ)) (n size : ℕ) (out : List ℕ) (w : World)
    → IsExact p n
    → length out + length (marked_bytes p) ≤ size
    → encode_payload (record m { payload = p; payload_len = n }) size out w
      ≡ (ok (out ++ marked_bytes p), w)
unfolding encode_payload load ◌>>=◌
payload_of-eq m none n size out w e h = ground (arith, append-nil out)
payload_of-eq m (some xs) n size out w e h = ground (
  arith,
  take_all n xs,
  slice-eq-ok xs 0 n,
  store-eq-ok size 0xff out,
  store_all-eq-ok size xs (out ++ (0xff ∷ [])),
  length-append {0} out (0xff ∷ []),
  append_assoc out (0xff ∷ []) xs,
)

length-parts :
    (m : Message) (destination : Text) (c : CoapState)
    → length (packet_bytes m destination c)
      ≡ 4 + length (path_bytes 0 (segments destination)) + length (marked_bytes m.payload)
length-parts m destination c =
    omega (arith, length-append {0} (path_bytes 0 (segments destination)) (marked_bytes m.payload))

path-eq :
    (destination : Text) (size : ℕ) (header : List ℕ)
    → All (λ s. length s < 2 ^ 16) (segments destination)
    → length header + length (path_bytes 0 (segments destination)) ≤ size
    → encode_path (length (strip_slash destination)) (some (strip_slash destination)) 0 size header
      ≡ ok (header ++ path_bytes 0 (segments destination))
path-eq destination size header short fits =
    subst
      (λ ss.
        All (λ s. length s < 2 ^ 16) ss
        → length header + length (path_bytes 0 ss) ≤ size
        → encode_path (length (strip_slash destination)) (some (strip_slash destination)) 0 size
            header
          ≡ ok (header ++ path_bytes 0 ss))
      (segments-strip_slash destination)
      (encode_path-eq (length (strip_slash destination)) (some (strip_slash destination)) 0 size
        header (omega arith) (omega arith))
      short fits

encode_message-eq :
    (m : Message) (destination : Text) (size : ℕ) (w : World)
    → IsExact m.payload m.payload_len
    → All (λ s. length s < 2 ^ 16) (segments destination)
    → length (packet_bytes m destination w.coap) ≤ size
    → encode_message m destination size w
      ≡ (ok (packet_bytes m destination w.coap), record w { coap = encoded_once w.coap })
unfolding encode_message
encode_message-eq m destination size w exact short fits =
    >>=-ok (encode_header m size) _ w (encode_header-eq m size w (omega (arith, fits, sizes)))
    ∙ >>=-ok
        (lift (
          encode_path (length (strip_slash destination)) (some (strip_slash destination)) 0 size
            header))
        _ (numbered w) {a = header ++ path} {w' = numbered w}
        (ap (λ r. (r, numbered w))
          (path-eq destination size header short (omega (arith, fits, sizes))))
    ∙ >>=-ok (encode_payload m size (header ++ path)) _ (numbered w) (
        payload_of-eq m m.payload m.payload_len size (header ++ path) (numbered w) exact
          (omega (arith, fits, sizes, length-append {0} header path)))
    ∙ unfold count_encoded ◌>>=◌ in
      ap (λ bytes. (ok bytes, record w { coap = encoded_once w.coap }))
        (append_assoc header path (marked_bytes m.payload))
  where
    header : List ℕ
    header = header_bytes m.qos w.coap.next_message_id

    path : List ℕ
    path = path_bytes 0 (segments destination)

    sizes :
        length (packet_bytes m destination w.coap)
        ≡ 4 + length (path_bytes 0 (segments destination)) + length (marked_bytes m.payload)
    sizes = length-parts m destination w.coap

-- A message for CoAP whose packet fits the buffer is encoded as its layout says: the header with
-- the next message identifier, an option for each segment of the destination that is not empty, and
-- the payload behind its marker. The identifier is used up and the packet is counted. The segments
-- have less than 65536 characters, and the payload's length is right.
pub coap_adapter_encode-layout :
    (m : Message) (destination : Text) (size : ℕ) (w : World)
    → m.protocol ≡ coap
    → m.destination ≡ some destination
    → IsExact m.payload m.payload_len
    → All (λ s. length s < 2 ^ 16) (segments destination)
    → length (packet_bytes m destination w.coap) ≤ size
    → coap_adapter_encode true (some m) true size true w
      ≡ (ok (packet_bytes m destination w.coap), record w { coap = encoded_once w.coap })
unfolding coap_adapter_encode same_protocol
coap_adapter_encode-layout m destination size w p d exact short fits =
    rw (ap (λ x. same_protocol x coap) p) (
      ap
        (λ (o : Option Text).
          (elim o as (λ _. M (List ℕ)) [
            | none ↦ fail invalid_param
            | some t ↦ encode_message m t size
          ])
            w)
        d
      ∙ encode_message-eq m destination size w exact short fits)
