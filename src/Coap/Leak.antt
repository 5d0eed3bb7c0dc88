-- ===== src/Coap/Leak.antt =====
-- The blocks that stay allocated when an option header is reserved.
use paum_io_t.Common.{
  ℕ, true, zero, suc, ◌+◌, ◌/◌, ◌^◌, ◌≤◌, ◌<◌, ◌≡◌, refl, ap, ◌∙◌, subst, arith, List, [], ◌∷◌,
  ◌++◌, some, length, length-append, append_assoc, bit_and, le→ltb_false,
}
use paum_io_t.Common.Bits.{low_nibble}
use paum_io_t.Codes.{Code, packet_malformed}
use paum_io_t.World.{Env, Grants, World, Result, M, ok, err, fault, ◌>>=◌, fail_if}
use paum_io_t.World.Rules.{Ensures, >>=-Ensures, ok-Ensures, lift-ok}
use paum_io_t.Mqtt.Bounds.{read-eq-ok}
use paum_io_t.Coap.Fields.{CoapOption, coap_decode_option_ext}
use paum_io_t.Coap.Parse.{decode_option, decode_options, decode_body, coap_decode_message}
use paum_io_t.Coap.Decode.{count_errors, coap_adapter_decode}
use paum_io_t.Coap.Blocks.{option_blocks, value_blocks}
use paum_io_t.Coap.Format.{
  NumberedValue, options_bytes, options_from, last_number, IsReadable, header_of,
}
use paum_io_t.Coap.ReadOption.{slice-inside, get_or-at}
use paum_io_t.Coap.ReadOptions.{at_option-header, decode_options-continues}
use paum_io_t.Coap.ReadMessage.{header-Ensures}

-- Refused as malformed, with `n` blocks more than before.
abbrev pub Leaves : ℕ → World → Code → World → Type 0
Leaves n w e v = (e ≡ packet_malformed) × (v.live ≡ w.live + n)

-- A delta of 15 has no meaning.
reserved-eq-err :
    (packet : List ℕ) (pos : ℕ)
    → pos < length packet
    → coap_decode_option_ext packet pos 15 ≡ err packet_malformed
unfolding coap_decode_option_ext
reserved-eq-err packet pos h = ground arith

reserved-nibble : (k : ℕ) → k < 15 → bit_and ((240 + k) / 16) 0x0f ≡ 15
reserved-nibble k h = omega (arith, low_nibble ((240 + k) / 16))

module _ (env : Env) (grants : Grants env) (k b : ℕ) (more : List ℕ) (low : k < 15) where
  abbrev reserved : List ℕ
  reserved = (240 + k) ∷ (b ∷ more)

  decode_option-reserved :
      (before : List ℕ) (prev count : ℕ) (w : World)
      → decode_option env (before ++ reserved) (length before) prev count w
        ≡ (err packet_malformed, w)
  unfolding decode_option ◌>>=◌
  decode_option-reserved before prev count w =
      rw
        (
          read-eq-ok packet (length before) (omega (arith, total)),
          get_or-at before (240 + k) (b ∷ more) 0,
          reserved-nibble k low,
          reserved-eq-err packet (length before + 1) (omega (arith, total)),
        )
        refl
    where
      packet : List ℕ
      packet = before ++ ((240 + k) ∷ (b ∷ more))

      total : length packet ≡ length before + (2 + length more)
      total = omega (arith, length-append {0} before ((240 + k) ∷ (b ∷ more)))

  options-Leaves :
      (fuel : ℕ) (before : List ℕ) (os : List NumberedValue) (w : World)
      → IsReadable 0 os reserved
      → length (options_bytes 0 os) < fuel
      → Ensures
          (λ r v. ⊥)
          (Leaves (option_blocks (options_from os)) w)
          (decode_options env fuel
            (before ++ (options_bytes 0 os ++ reserved))
            (length before)
            0
            []
            w)
  unfolding value_blocks
  options-Leaves fuel before os w readable enough =
      decode_options-continues env grants (λ r v. ⊥) Left fuel before 0 os reserved [] w readable
        enough
        λ left found v same room live.
          refused left found v (omega (arith, room, enough))
            (live ∙ ap (λ x. w.live + option_blocks x) same)
    where
      Left : Code → World → Type 0
      Left = Leaves (option_blocks (options_from os)) w

      reached : List ℕ
      reached = before ++ options_bytes 0 os

      refused :
          (left : ℕ) (found : List CoapOption) (v : World)
          → 0 < left
          → v.live + 0 ≡ w.live + option_blocks (options_from os)
          → Ensures
              (λ r u. ⊥)
              Left
              (decode_options env left
                (reached ++ reserved)
                (length reached)
                (last_number 0 os)
                found
                v)
      refused zero found v h live = absurd (omega (arith, h))
      refused (suc left) found v h live =
          unfold decode_options in
          rw (at_option-header env grants reached (240 + k) (b ∷ more) (omega (arith, low))) (
            >>=-Ensures (λ r u. ⊥) (λ r u. ⊥) Left _ _ v
              (rw (decode_option-reserved reached (last_number 0 os) (length found) v)
                (refl, omega (arith, live)))
              λ r u g. absurd g)

  body-Leaves :
      (type : ℕ) (token : List ℕ) (code id : ℕ) (os : List NumberedValue) (w : World)
      → IsReadable 0 os reserved
      → Ensures
          (λ p v. ⊥)
          (Leaves (option_blocks (options_from os)) w)
          (decode_body env
            (header_of type token code id ++ (token ++ (options_bytes 0 os ++ reserved)))
            1
            type
            (length token)
            code
            id
            w)
  unfolding decode_body
  body-Leaves type token code id os w readable =
      ok-Ensures (λ p v. ⊥) Left _ _ w {a = tt} {w' = w}
        (ap (λ x. fail_if x packet_malformed w)
          (le→ltb_false (length packet) (4 + length token) (omega (arith, total))))
        (ok-Ensures (λ p v. ⊥) Left _ _ w {a = token} {w' = w}
          (lift-ok w (slice-inside header token rest))
          (>>=-Ensures (λ r v. ⊥) (λ p v. ⊥) Left _ _ w options (λ r v g. absurd g)))
    where
      Left : Code → World → Type 0
      Left = Leaves (option_blocks (options_from os)) w

      rest : List ℕ
      rest = options_bytes 0 os ++ reserved

      header : List ℕ
      header = header_of type token code id

      packet : List ℕ
      packet = header ++ (token ++ rest)

      total : length packet ≡ 4 + length token + length rest
      total = omega (arith, length-append {0} token rest)

      options :
          Ensures
            (λ r v. ⊥)
            Left
            (decode_options env (suc (length packet)) packet (4 + length token) 0 [] w)
      options =
          subst
            (λ q.
              Ensures (λ r v. ⊥) Left (decode_options env (suc (length packet)) packet q 0 [] w))
            (length-append header token)
            (subst
              (λ t.
                Ensures (λ r v. ⊥) Left
                  (decode_options env (suc (length packet)) t (length (header ++ token)) 0 [] w))
              (append_assoc header token rest)
              (options-Leaves (suc (length packet)) (header ++ token) os w readable
                (omega (arith, total, length-append {0} (options_bytes 0 os) reserved))))

-- The adapter counts the error.
count_errors-Leaves {ℓ} :
    {A : Type ℓ} (n : ℕ) (w : World) (m : M A)
    → Ensures (λ p v. ⊥) (Leaves n w) (m w)
    → Ensures (λ p v. ⊥) (Leaves n w) (count_errors m w)
unfolding count_errors
count_errors-Leaves {A = A} n w m h = counted (m w).0 (m w).1 h
  where
    counted :
        (r : Result A) (v : World)
        → Ensures (λ p v. ⊥) (Leaves n w) (r, v)
        → Ensures (λ p v. ⊥) (Leaves n w) (count_errors (λ _. (r, v)) w)
    counted (ok a) v h = h
    counted (err e) v h = h
    counted fault v h = h

-- If memory is granted, a packet with any options of RFC 7252, then an option header with the reserved
-- delta 15, and a byte or more behind it, is refused as malformed, and what the options before the
-- header took stays allocated: a block for the array, if there is an option, and one for each value
-- that is not empty.
pub malformed_option-live :
    (env : Env) (type : ℕ) (token : List ℕ) (code id : ℕ) (os : List NumberedValue) (k b : ℕ)
    (more : List ℕ) (w : World)
    → Grants env
    → type < 4
    → length token ≤ 8
    → id < 2 ^ 16
    → k < 15
    → IsReadable 0 os ((240 + k) ∷ (b ∷ more))
    → Ensures
        (λ r v. ⊥)
        (λ e v. (e ≡ packet_malformed) × (v.live ≡ w.live + option_blocks (options_from os)))
        (coap_adapter_decode env true
          (some (
            header_of type token code id
            ++ (token ++ (options_bytes 0 os ++ ((240 + k) ∷ (b ∷ more))))))
          true
          w)
unfolding coap_adapter_decode
malformed_option-live env type token code id os k b more w grants small short word low readable =
    rw (le→ltb_false (length packet) 4 (omega arith)) (
      >>=-Ensures (λ r v. ⊥) (λ r v. ⊥) Left (count_errors (coap_decode_message env packet)) _ w
        (count_errors-Leaves _ w (coap_decode_message env packet) (
          header-Ensures env type token code id small short word (λ p v. ⊥) Left _ w
            (body-Leaves env grants k b more low type token code id os w readable)))
        λ r v g. absurd g)
  where
    Left : Code → World → Type 0
    Left = Leaves (option_blocks (options_from os)) w

    packet : List ℕ
    packet =
        header_of type token code id ++ (token ++ (options_bytes 0 os ++ ((240 + k) ∷ (b ∷ more))))
