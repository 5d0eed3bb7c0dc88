-- ===== src/Coap/RoundTrip.antt =====
-- What the CoAP decoder makes of a packet that the encoder wrote.
use paum_io_t.Common.{
  ℕ, ◌∙◌, ◌+◌, ◌*◌, ◌/◌, ◌%◌, ◌^◌, ◌≤◌, ◌<◌, ◌≡◌, sym, ap, subst, arith, true, List, [], ◌∷◌, ◌++◌,
  Option, some, length, ltb, ◌==◌, if◌then◌else◌, All, le→ltb_false,
}
use paum_io_t.World.{Text, Env, Grants, World, ◌>>=◌}
use paum_io_t.World.Rules.{Ensures, >>=-Ensures, ok-Ensures, Ensures-weaken}
use paum_io_t.Message.{Message, coap}
use paum_io_t.Message.Laws.{IsExact}
use paum_io_t.Mqtt.Format.{payload_bytes}
use paum_io_t.Mqtt.Delivery.{IsText, Never}
use paum_io_t.Coap.Parse.{CoapMessage, coap_decode_message}
use paum_io_t.Coap.Decode.{deliver, coap_adapter_decode}
use paum_io_t.Coap.Encode.{coap_adapter_encode}
use paum_io_t.Coap.Path.{segments, segments-long, segments-All, all_fields}
use paum_io_t.Coap.Layout.{path_bytes}
use paum_io_t.Coap.Written.{
  header_bytes, marked_bytes, packet_bytes, encoded_once, coap_adapter_encode-layout,
}
use paum_io_t.Coap.Handlers.{count_errors-Ensures}
use paum_io_t.Coap.Reading.{numbered, path_bytes-eq, options_from-numbered, numbered-IsReadable}
use paum_io_t.Coap.Format.{message_bytes, message_from}
use paum_io_t.Coap.ReadMessage.{coap_decode_message-reads}
use paum_io_t.Coap.Making.{Says}
use paum_io_t.Coap.Rebuilding.{joined, IsParsed, deliver_path-Says}

-- The type of the request that the encoder writes.
abbrev pub type_of : ℕ → ℕ
type_of qos = if ltb 0 qos then 0 else 1

module _ (env : Env) (grants : Grants env) where
  pub message-parses :
      (qos id : ℕ) (ss : List Text) (payload : Option (List ℕ)) (n : ℕ) (w : World)
      → All (λ s. length s < 2 ^ 16) ss
      → All (λ s. 0 < length s) ss
      → IsExact payload n
      → Ensures
          (λ p v. IsParsed (type_of qos) ss payload n p)
          Never
          (coap_decode_message env
            (header_bytes qos id ++ (path_bytes 0 ss ++ marked_bytes payload))
            w)
  message-parses qos id ss payload n w short long exact =
      subst (λ t. Ensures After Never (coap_decode_message env t w)) laid_out
        (Ensures-weaken Read After Never Never
          (coap_decode_message env
            (message_bytes (type_of qos) [] 1 (id % 2 ^ 16) (numbered ss) payload) w)
          (coap_decode_message-reads env (type_of qos) [] 1 (id % 2 ^ 16) (numbered ss) payload n w
            grants (ground arith) (omega arith) (omega arith)
            (numbered-IsReadable 0 ss (marked_bytes payload) (omega arith) short long) exact)
          (λ p v e. record {
            kind = ap (λ x. x.type) e;
            path = ap (λ x. x.options) e ∙ options_from-numbered ss long;
            holds = ap (λ x. x.payload) e;
            size = ap (λ x. x.payload_len) e;
          })
          (λ c v k. k))
    where
      After : CoapMessage → World → Type 0
      After p v = IsParsed (type_of qos) ss payload n p

      Read : CoapMessage → World → Type 0
      Read p v = p ≡ message_from (type_of qos) [] 1 (id % 2 ^ 16) (numbered ss) payload n

      first : 64 + type_of qos * 16 + 0 ≡ (if ltb 0 qos then 64 else 80)
      first = ground arith

      laid_out :
          message_bytes (type_of qos) [] 1 (id % 2 ^ 16) (numbered ss) payload
          ≡ header_bytes qos id ++ (path_bytes 0 ss ++ marked_bytes payload)
      laid_out = λ i.
          first i
          ∷ 1
          ∷ high i
          ∷ low i
          ∷ (sym (path_bytes-eq 0 ss (omega arith)) i ++ marked_bytes payload)
        where
          high : id % 2 ^ 16 / 256 ≡ id / 256 % 256
          high = omega arith

          low : id % 2 ^ 16 % 256 ≡ id % 256
          low = omega arith

  packet-Says :
      (qos id : ℕ) (ss : List Text) (payload : Option (List ℕ)) (n : ℕ) (w : World)
      → 0 < length ss
      → All IsText ss
      → All (λ s. length s < 2 ^ 16) ss
      → All (λ s. 0 < length s) ss
      → IsExact payload n
      → Ensures
          (λ r v. Says (joined ss) (if ltb 0 qos then 1 else 0) (payload_bytes payload) r)
          Never
          (coap_adapter_decode env true
            (some (header_bytes qos id ++ (path_bytes 0 ss ++ marked_bytes payload)))
            true
            w)
  unfolding coap_adapter_decode
  packet-Says qos id [] payload n w some_segment text short long exact =
      absurd (omega (arith, some_segment))
  packet-Says qos id (s ∷ ss) payload n w some_segment text short long exact =
      rw (le→ltb_false (length packet) 4 (omega arith)) (
        >>=-Ensures (λ p v. IsParsed (type_of qos) (s ∷ ss) payload n p)
          (After (if ltb 0 qos then 1 else 0)) Never _ _ w
          (count_errors-Ensures (λ p v. IsParsed (type_of qos) (s ∷ ss) payload n p) Never Never
            (coap_decode_message env packet) w
            (message-parses qos id (s ∷ ss) payload n w short long exact) (λ e v h. h))
          λ p v parsed.
            subst (λ q. Ensures (After q) Never (deliver env p v)) same
              (deliver_path-Says env grants (type_of qos) s ss payload n p v long.0 text exact
                parsed))
    where
      packet : List ℕ
      packet = header_bytes qos id ++ (path_bytes 0 (s ∷ ss) ++ marked_bytes payload)

      After : ℕ → Message → World → Type 0
      After q r v = Says (joined (s ∷ ss)) q (payload_bytes payload) r

      same : ◌≡◌ {A = ℕ} (if type_of qos == 0 then 1 else 0) (if ltb 0 qos then 1 else 0)
      same = ground arith

-- A message for CoAP whose packet fits the caller's buffer is encoded, and decoding the packet gives
-- back its payload, its destination with one slash before each segment, and a QoS of 1 if it was
-- not 0. The destination is a C string with a segment that is not empty, its segments have less than
-- 65536 characters, the payload's length is right, and no request for memory fails.
pub coap_adapter_decode-encode :
    (env : Env) (m : Message) (destination : Text) (size : ℕ) (w : World)
    → Grants env
    → m.protocol ≡ coap
    → m.destination ≡ some destination
    → IsText destination
    → 0 < length (segments destination)
    → All (λ s. length s < 2 ^ 16) (segments destination)
    → IsExact m.payload m.payload_len
    → length (packet_bytes m destination w.coap) ≤ size
    → Ensures
        (λ r v.
          Says
            (joined (segments destination))
            (if ltb 0 m.qos then 1 else 0)
            (payload_bytes m.payload)
            r)
        Never
        ((coap_adapter_encode true (some m) true size true
            >>= (λ packet. coap_adapter_decode env true (some packet) true))
          w)
coap_adapter_decode-encode env m destination size w grants p d text some_segment short exact fits =
    ok-Ensures
      (λ r v.
        Says (joined (segments destination)) (if ltb 0 m.qos then 1 else 0)
          (payload_bytes m.payload) r)
      Never _ _ w {a = packet_bytes m destination w.coap}
      {w' = record w { coap = encoded_once w.coap }}
      (coap_adapter_encode-layout m destination size w p d exact short fits)
      (packet-Says env grants m.qos w.coap.next_message_id (segments destination) m.payload
        m.payload_len (record w { coap = encoded_once w.coap }) some_segment
        (segments-All (λ c. 0 < c) destination text) short (segments-long (all_fields destination))
        exact)
