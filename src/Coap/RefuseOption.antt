-- ===== src/Coap/RefuseOption.antt =====
-- An option without a value at the end of a packet.
use paum_io_t.Common.{
  ℕ, ◌+◌, ◌-◌, ◌*◌, ◌/◌, ◌^◌, ◌≤◌, ◌<◌, ◌≡◌, refl, sym, ap, ◌∙◌, subst, arith, List, [], ◌∷◌, ◌++◌,
  length, length-append, append_assoc, bit_and, dec_lt, le→leb,
}
use paum_io_t.Common.Bits.{low_nibble}
use paum_io_t.Codes.{invalid_param}
use paum_io_t.World.{M, Env, Grants, World, ok, err, ◌>>=◌, lift, read}
use paum_io_t.World.Rules.{Ensures, >>=-Ensures, ok-Ensures, lift-ok}
use paum_io_t.Mqtt.Bounds.{read-eq-ok}
use paum_io_t.Coap.Fields.{CoapOption, coap_decode_option_ext}
use paum_io_t.Coap.Parse.{decode_option}
use paum_io_t.Coap.Handlers.{Invalid}
use paum_io_t.Coap.Extension.{nibble, extension, decode-eq_end}
use paum_io_t.Coap.Layout.{nibble-small}
use paum_io_t.Coap.ReadOption.{get_or-at}

-- At the end of a packet there is nothing to decode.
end-invalid :
    (packet : List ℕ) (pos base : ℕ)
    → length packet ≤ pos
    → coap_decode_option_ext packet pos base ≡ err invalid_param
unfolding coap_decode_option_ext
end-invalid packet pos base h = rw (le→leb (length packet) pos h) refl

module _ (env : Env) (grants : Grants env) where
  pub decode_option-refuses :
      (before : List ℕ) (prev count number : ℕ) (w : World)
      → number < 2 ^ 16
      → Ensures
          (λ r v. ⊥)
          Invalid
          (decode_option env
            (before ++ ((nibble (number - prev) * 16 + 0) ∷ extension (number - prev)))
            (length before)
            prev
            count
            w)
  unfolding decode_option
  decode_option-refuses before prev count number w small =
      ok-Ensures (λ r v. ⊥) Invalid (lift (read packet (length before))) _ w {a = header} {w' = w}
        (lift-ok w first)
        (elim (dec_lt d 13) [
          | yes l ↦ stuck (length before + 1) (bit_and (header / 16) 0x0f) (at_end l) _
          | no l ↦
              ok-Ensures (λ r v. ⊥) Invalid _ _ w {a = (d, length packet)} {w' = w}
                (lift-ok w (delta (omega (arith, l))))
                (stuck (length packet) (bit_and header 0x0f) (omega arith) _)
        ])
    where
      d : ℕ
      d = number - prev

      header : ℕ
      header = nibble d * 16 + 0

      packet : List ℕ
      packet = before ++ (header ∷ extension d)

      total : length packet ≡ length before + 1 + length (extension d)
      total = length-append before (header ∷ extension d) ∙ omega arith

      stuck :
          (pos base : ℕ)
          → length packet ≤ pos
          → (k : ℕ × ℕ → M (CoapOption × ℕ))
          → Ensures (λ r v. ⊥) Invalid ((lift (coap_decode_option_ext packet pos base) >>= k) w)
      stuck pos base h k =
          >>=-Ensures (λ r v. ⊥) (λ r v. ⊥) Invalid (lift (coap_decode_option_ext packet pos base))
            k w (rw (end-invalid packet pos base h) refl) (λ r v g. absurd g)

      at_end : d < 13 → length packet ≤ length before + 1
      at_end l = ground (arith, total)

      first : read packet (length before) ≡ ok header
      first =
          read-eq-ok packet (length before) (omega (arith, total))
          ∙ ap ok (get_or-at before header (extension d) 0)

      high : bit_and (header / 16) 0x0f ≡ nibble d
      high = omega (arith, low_nibble (header / 16), nibble-small d)

      to_delta : List ℕ
      to_delta = before ++ (header ∷ [])

      delta :
          13 ≤ d
          → coap_decode_option_ext packet (length before + 1) (bit_and (header / 16) 0x0f)
            ≡ ok (d, length packet)
      delta l =
          ap (coap_decode_option_ext packet (length before + 1)) high
          ∙ subst
              (λ q. coap_decode_option_ext packet q (nibble d) ≡ ok (d, q + length (extension d)))
              (length-append before (header ∷ []))
              (subst
                (λ t.
                  coap_decode_option_ext t (length to_delta) (nibble d)
                  ≡ ok (d, length to_delta + length (extension d)))
                (append_assoc before (header ∷ []) (extension d))
                (decode-eq_end d to_delta l (omega (arith, small))))
          ∙ ap (λ q. ok (d, q)) (sym total)
