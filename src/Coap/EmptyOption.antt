-- ===== src/Coap/EmptyOption.antt =====
-- A packet that ends with an option without a value.
use paum_io_t.Common.{
  ℕ, zero, suc, ◌+◌, ◌-◌, ◌*◌, ◌^◌, ◌≤◌, ◌<◌, ◌≡◌, sym, ap, ◌∙◌, subst, arith, List, [], ◌∷◌, ◌++◌,
  none, length, length-append, append_assoc, append-nil, le→ltb_false,
}
use paum_io_t.Codes.{packet_malformed}
use paum_io_t.World.{Env, Grants, World, fail_if}
use paum_io_t.World.Rules.{Ensures, >>=-Ensures, ok-Ensures, lift-ok}
use paum_io_t.Coap.Fields.{CoapOption}
use paum_io_t.Coap.Parse.{decode_option, decode_options, decode_body, coap_decode_message}
use paum_io_t.Coap.Handlers.{Invalid}
use paum_io_t.Coap.Extension.{nibble, extension}
use paum_io_t.Coap.Layout.{nibble-small}
use paum_io_t.Coap.Format.{
  NumberedValue, bytes_of, options_bytes, last_number, IsReadable, header_of, message_bytes,
}
use paum_io_t.Coap.ReadOption.{slice-inside}
use paum_io_t.Coap.ReadOptions.{at_option-header, decode_options-continues}
use paum_io_t.Coap.ReadMessage.{header-Ensures}
use paum_io_t.Coap.RefuseOption.{decode_option-refuses}

module _ (env : Env) (grants : Grants env) where
  options-refuse :
      (fuel : ℕ) (before : List ℕ) (os : List NumberedValue) (number : ℕ) (w : World)
      → IsReadable 0 os (bytes_of (last_number 0 os) number [])
      → number < 2 ^ 16
      → length (options_bytes 0 os) < fuel
      → Ensures
          (λ r v. ⊥)
          Invalid
          (decode_options env fuel
            (before ++ (options_bytes 0 os ++ bytes_of (last_number 0 os) number []))
            (length before)
            0
            []
            w)
  options-refuse fuel before os number w readable small enough =
      decode_options-continues env grants (λ r v. ⊥) Invalid fuel before 0 os last [] w readable
        enough λ left more v same room live. refuses left more v (omega (arith, room, enough))
    where
      prev : ℕ
      prev = last_number 0 os

      last : List ℕ
      last = bytes_of prev number []

      header : ℕ
      header = nibble (number - prev) * 16 + 0

      reached : List ℕ
      reached = before ++ options_bytes 0 os

      refuses :
          (left : ℕ) (more : List CoapOption) (v : World)
          → 0 < left
          → Ensures
              (λ r u. ⊥)
              Invalid
              (decode_options env left
                (reached ++ (header ∷ (extension (number - prev) ++ [])))
                (length reached)
                prev
                more
                v)
      refuses zero more v h = absurd (omega (arith, h))
      refuses (suc left) more v h =
          unfold decode_options in
          rw
            (at_option-header env grants reached header (extension (number - prev) ++ [])
              (omega (arith, nibble-small (number - prev))))
            (>>=-Ensures (λ r u. ⊥) (λ r u. ⊥) Invalid _ _ v
              (subst
                (λ t.
                  Ensures (λ r u. ⊥) Invalid
                    (decode_option env (reached ++ ((nibble (number - prev) * 16 + 0) ∷ t))
                      (length reached) prev (length more) v))
                (sym (append-nil (extension (number - prev))))
                (decode_option-refuses env grants reached prev (length more) number v small))
              λ r u k. absurd k)

options_bytes-snoc :
    (prev : ℕ) (os : List NumberedValue) (number : ℕ) (value : List ℕ)
    → options_bytes prev (os ++ ((number, value) ∷ []))
      ≡ options_bytes prev os ++ bytes_of (last_number prev os) number value
unfolding options_bytes
options_bytes-snoc prev [] number value = append-nil (bytes_of prev number value)
options_bytes-snoc prev ((k, v) ∷ os) number value =
    ap (λ t. bytes_of prev k v ++ t) (options_bytes-snoc k os number value)
    ∙ sym (
        append_assoc (bytes_of prev k v) (options_bytes k os)
          (bytes_of (last_number k os) number value))

-- A packet that RFC 7252 allows is refused as an invalid parameter if it ends with an option without
-- a value, whatever stands before that option. It is otherwise as for reading.
pub coap_decode_message-empty_option :
    (env : Env) (type : ℕ) (token : List ℕ) (code id : ℕ) (os : List NumberedValue) (number : ℕ)
    (w : World)
    → Grants env
    → type < 4
    → length token ≤ 8
    → id < 2 ^ 16
    → IsReadable 0 os (bytes_of (last_number 0 os) number [])
    → number < 2 ^ 16
    → Ensures
        (λ p v. ⊥)
        Invalid
        (coap_decode_message env
          (message_bytes type token code id (os ++ ((number, []) ∷ [])) none)
          w)
coap_decode_message-empty_option env type token code id os number w grants small short word readable
      few =
    subst
      (λ t.
        Ensures (λ p v. ⊥) Invalid
          (coap_decode_message env (header_of type token code id ++ (token ++ t)) w))
      (sym (
        append-nil (options_bytes 0 (os ++ ((number, []) ∷ [])))
        ∙ options_bytes-snoc 0 os number []))
      (header-Ensures env type token code id small short word (λ p v. ⊥) Invalid rest w refused)
  where
    rest : List ℕ
    rest = options_bytes 0 os ++ bytes_of (last_number 0 os) number []

    header : List ℕ
    header = header_of type token code id

    packet : List ℕ
    packet = header ++ (token ++ rest)

    to_options : List ℕ
    to_options = header ++ token

    total : length packet ≡ 4 + length token + length rest
    total = omega (arith, length-append {0} token rest)

    options_refused :
        Ensures
          (λ r v. ⊥)
          Invalid
          (decode_options env (suc (length packet)) packet (4 + length token) 0 [] w)
    options_refused =
        subst
          (λ q.
            Ensures (λ r v. ⊥) Invalid (decode_options env (suc (length packet)) packet q 0 [] w))
          (length-append header token)
          (subst
            (λ t.
              Ensures (λ r v. ⊥) Invalid
                (decode_options env (suc (length packet)) t (length to_options) 0 [] w))
            (append_assoc header token rest)
            (options-refuse env grants (suc (length packet)) to_options os number w readable few (
              omega (
                arith,
                total,
                length-append {0} (options_bytes 0 os) (bytes_of (last_number 0 os) number []),
              ))))

    refused : Ensures (λ p v. ⊥) Invalid (decode_body env packet 1 type (length token) code id w)
    refused =
        unfold decode_body in
        ok-Ensures (λ p v. ⊥) Invalid _ _ w {a = tt} {w' = w}
          (ap (λ x. fail_if x packet_malformed w)
            (le→ltb_false (length packet) (4 + length token) (omega (arith, total))))
          (ok-Ensures (λ p v. ⊥) Invalid _ _ w {a = token} {w' = w}
            (lift-ok w (slice-inside header token rest))
            (>>=-Ensures (λ r v. ⊥) (λ p v. ⊥) Invalid _ _ w options_refused (λ r v k. absurd k)))
