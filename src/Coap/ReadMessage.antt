-- ===== src/Coap/ReadMessage.antt =====
-- The CoAP parser on a whole packet that is laid out as Coap.Format says.
use paum_io_t.Common.{
  ℕ, suc, ◌+◌, ◌*◌, ◌/◌, ◌%◌, ◌^◌, ◌≤◌, ◌<◌, ◌≡◌, refl, sym, ap, ◌∙◌, subst, arith, false, not,
  List, [], ◌∷◌, ◌++◌, Option, length, length-append, append_assoc, ltb, ◌==◌, bit_or, bit_and,
  le→ltb_false,
}
use paum_io_t.Common.Bits.{low_nibble, low_two, join_bytes}
use paum_io_t.Codes.{Code, invalid_param, packet_malformed, protocol_violation}
use paum_io_t.World.{Env, Grants, World, fail_if, read}
use paum_io_t.World.Rules.{Ensures, >>=-Ensures, ok-Ensures, lift-ok}
use paum_io_t.Message.Laws.{IsExact}
use paum_io_t.Mqtt.Delivery.{Never}
use paum_io_t.Coap.Fields.{CoapOption}
use paum_io_t.Coap.Parse.{
  CoapMessage, decode_body, coap_decode_message, decode_options, decode_payload,
}
use paum_io_t.Coap.Written.{marked_bytes}
use paum_io_t.Coap.Format.{
  NumberedValue, options_bytes, options_from, IsReadable, header_of, message_bytes, message_from,
}
use paum_io_t.Coap.ReadOption.{slice-inside}
use paum_io_t.Coap.ReadOptions.{decode_options-reads, decode_payload-reads}

module _ (env : Env) (grants : Grants env) where
  -- From the token on.
  body-reads :
      (a b c d type : ℕ) (token : List ℕ) (code id : ℕ) (os : List NumberedValue)
      (payload : Option (List ℕ)) (n : ℕ) (w : World)
      → IsReadable 0 os (marked_bytes payload)
      → IsExact payload n
      → Ensures
          (λ p v. p ≡ message_from type token code id os payload n)
          Never
          (decode_body env
            (a ∷ b ∷ c ∷ d ∷ (token ++ (options_bytes 0 os ++ marked_bytes payload)))
            1
            type
            (length token)
            code
            id
            w)
  unfolding decode_body
  body-reads a b c d type token code id os payload n w readable exact =
      ok-Ensures After Never _ _ w {a = tt} {w' = w} (ap (λ x. fail_if x packet_malformed w) inside)
        (ok-Ensures After Never _ _ w {a = token} {w' = w}
          (lift-ok w (slice-inside header token (options_bytes 0 os ++ marked_bytes payload)))
          (>>=-Ensures (λ r v. r ≡ (options_from os, at_payload)) After Never _ _ w options_read
            λ r v e.
              >>=-Ensures (λ q u. q ≡ (payload, n)) After Never _ _ v (payload_read r v e)
                λ q u g.
                  ap
                    (λ x. record {
                      version = 1;
                      type = type;
                      token_len = length token;
                      code = code;
                      message_id = id;
                      token = token;
                      options = x;
                      payload = q.0;
                      payload_len = q.1;
                    })
                    (ap (λ x. x.0) e)
                  ∙ ap (λ x. message_from type token code id os (x.0) (x.1)) g))
    where
      header : List ℕ
      header = a ∷ b ∷ c ∷ d ∷ []

      to_options : List ℕ
      to_options = header ++ token

      packet : List ℕ
      packet = header ++ (token ++ (options_bytes 0 os ++ marked_bytes payload))

      at_payload : ℕ
      at_payload = 4 + length token + length (options_bytes 0 os)

      After : CoapMessage → World → Type 0
      After p v = p ≡ message_from type token code id os payload n

      total : length packet ≡ at_payload + length (marked_bytes payload)
      total = omega (
        arith,
        length-append {0} token (options_bytes 0 os ++ marked_bytes payload),
        length-append {0} (options_bytes 0 os) (marked_bytes payload),
      )

      inside : ltb (length packet) (4 + length token) ≡ false
      inside = le→ltb_false (length packet) (4 + length token) (omega (arith, total))

      from_options : to_options ++ (options_bytes 0 os ++ marked_bytes payload) ≡ packet
      from_options = append_assoc header token (options_bytes 0 os ++ marked_bytes payload)

      from_payload : (to_options ++ options_bytes 0 os) ++ marked_bytes payload ≡ packet
      from_payload =
          append_assoc to_options (options_bytes 0 os) (marked_bytes payload) ∙ from_options

      length_options : length to_options ≡ 4 + length token
      length_options = length-append header token

      length_payload : length (to_options ++ options_bytes 0 os) ≡ at_payload
      length_payload =
          omega (arith, length_options, length-append {0} to_options (options_bytes 0 os))

      options_read :
          Ensures
            (λ r v. r ≡ (options_from os, at_payload))
            Never
            (decode_options env (suc (length packet)) packet (4 + length token) 0 [] w)
      options_read =
          subst
            (λ q.
              Ensures (λ r v. r ≡ (options_from os, q + length (options_bytes 0 os))) Never
                (decode_options env (suc (length packet)) packet q 0 [] w))
            length_options
            (subst
              (λ t.
                Ensures
                  (λ r v. r ≡ (options_from os, length to_options + length (options_bytes 0 os)))
                  Never (decode_options env (suc (length packet)) t (length to_options) 0 [] w))
              from_options
              (decode_options-reads env grants (suc (length packet)) to_options 0 os payload [] w
                readable (omega (arith, total))))

      payload_read :
          (r : List CoapOption × ℕ) (v : World)
          → r ≡ (options_from os, at_payload)
          → Ensures (λ q u. q ≡ (payload, n)) Never (decode_payload env packet (r.1) v)
      payload_read r v e =
          subst (λ k. Ensures (λ q u. q ≡ (payload, n)) Never (decode_payload env packet k v))
            (length_payload ∙ sym (ap (λ x. x.1) e))
            (subst
              (λ t.
                Ensures (λ q u. q ≡ (payload, n)) Never
                  (decode_payload env t (length (to_options ++ options_bytes 0 os)) v))
              from_payload
              (decode_payload-reads env grants (to_options ++ options_bytes 0 os) payload n v
                exact))

module _ (env : Env) (type : ℕ) (token : List ℕ) (code id : ℕ) (small : type < 4)
    (short : length token ≤ 8) (word : id < 2 ^ 16) where
  -- The header is read, and the rest decides.
  pub header-Ensures :
      (P : CoapMessage → World → Type 0) (Q : Code → World → Type 0) (rest : List ℕ) (w : World)
      → Ensures P Q (
          decode_body env
            (header_of type token code id ++ (token ++ rest))
            1
            type
            (length token)
            code
            id
            w)
      → Ensures P Q (coap_decode_message env (header_of type token code id ++ (token ++ rest)) w)
  unfolding coap_decode_message read
  header-Ensures P Q rest w body =
      ok-Ensures P Q _ _ w {a = tt} {w' = w}
        (ap (λ x. fail_if x invalid_param w) (le→ltb_false _ 4 (omega arith)))
        (ok-Ensures P Q _ _ w {a = first} {w' = w} refl (
          ok-Ensures P Q _ _ w {a = tt} {w' = w}
            (ap (λ x. fail_if (not (x == 1)) protocol_violation w) version)
            (ok-Ensures P Q _ _ w {a = tt} {w' = w} (ap (λ x. fail_if x packet_malformed w) few) (
              ok-Ensures P Q _ _ w {a = code} {w' = w} refl (
                ok-Ensures P Q _ _ w {a = id / 256} {w' = w} refl (
                  ok-Ensures P Q _ _ w {a = id % 256} {w' = w} refl
                    (rw (version, kind, size, whole) body)))))))
    where
      first : ℕ
      first = 64 + type * 16 + length token

      version : bit_and (first / 64) 0x03 ≡ 1
      version = omega (arith, low_two (first / 64), small, short)

      kind : bit_and (first / 16) 0x03 ≡ type
      kind = omega (arith, low_two (first / 16), small, short)

      size : bit_and first 0x0f ≡ length token
      size = omega (arith, low_nibble first, small, short)

      few : ltb 8 (bit_and first 0x0f) ≡ false
      few = le→ltb_false 8 (bit_and first 0x0f) (omega (arith, size, short))

      whole : bit_or (id / 256 * 256) (id % 256) ≡ id
      whole = omega (arith, join_bytes (id / 256) (id % 256))

-- Every packet of RFC 7252 is read as what it says: if memory is granted, parsing the bytes of a type,
-- a token of 8 bytes at most, a code, a message identifier, options with ascending numbers, and a
-- payload gives a message of exactly these. The payload's length is right, numbers and lengths are
-- below 2 ^ 16, and an option without a value is not the last thing in the packet.
pub coap_decode_message-reads :
    (env : Env) (type : ℕ) (token : List ℕ) (code id : ℕ) (os : List NumberedValue)
    (payload : Option (List ℕ)) (n : ℕ) (w : World)
    → Grants env
    → type < 4
    → length token ≤ 8
    → id < 2 ^ 16
    → IsReadable 0 os (marked_bytes payload)
    → IsExact payload n
    → Ensures
        (λ p v. p ≡ message_from type token code id os payload n)
        Never
        (coap_decode_message env (message_bytes type token code id os payload) w)
coap_decode_message-reads env type token code id os payload n w grants small short word readable
      exact =
    header-Ensures env type token code id small short word
      (λ p v. p ≡ message_from type token code id os payload n) Never
      (options_bytes 0 os ++ marked_bytes payload) w
      (body-reads env grants (64 + type * 16 + length token) code (id / 256) (id % 256) type token
        code id os payload n w readable exact)
