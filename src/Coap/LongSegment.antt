-- ===== src/Coap/LongSegment.antt =====
-- A segment of 65536 characters or more.
use paum_io_t.Common.{
  ℕ, ◌+◌, ◌-◌, ◌*◌, ◌^◌, ◌≤◌, ◌<◌, ◌≡◌, sym, ap, ◌∙◌, subst, arith, List, ◌∷◌, ◌++◌, length,
  length-append, append_assoc, take, drop, length-take, take-append-drop,
}
use paum_io_t.World.{Text, Env, Grants, World, ok}
use paum_io_t.World.Rules.{Ensures, Ensures-weaken}
use paum_io_t.Coap.Fields.{CoapOption}
use paum_io_t.Mqtt.Delivery.{Never}
use paum_io_t.Coap.Encode.{encode_option}
use paum_io_t.Coap.Parse.{decode_option}
use paum_io_t.Coap.Extension.{nibble, extension}
use paum_io_t.Coap.Layout.{encode_option-wraps}
use paum_io_t.Coap.Format.{bytes_of, option_from}
use paum_io_t.Coap.Reading.{option_bytes-eq}
use paum_io_t.Coap.ReadOption.{decode_option-reads}

module _ (s : Text) (n : ℕ) (size_s : length s ≡ 2 ^ 16 + n) where
  length-front : length (take n s) ≡ n
  length-front = omega (arith, length-take n s, size_s)

  length-back : length (drop n s) ≡ 2 ^ 16
  length-back = omega (
    arith,
    size_s,
    length-front,
    ap length (take-append-drop n s),
    length-append {0} (take n s) (drop n s),
  )

  -- The bytes written are those of an option for the front, and then the rest of the segment.
  split-eq :
      (prev : ℕ)
      → prev ≤ 11
      → ((11 - prev) * 16 + nibble n) ∷ (extension n ++ s) ≡ bytes_of prev 11 (take n s) ++ drop n s
  split-eq prev p =
      ap (λ t. ((11 - prev) * 16 + nibble n) ∷ (extension n ++ t)) (sym (take-append-drop n s))
      ∙ ap (λ t. ((11 - prev) * 16 + nibble n) ∷ t)
          (sym (append_assoc (extension n) (take n s) (drop n s)))
      ∙ ap (λ k. (((11 - prev) * 16 + nibble k) ∷ (extension k ++ take n s)) ++ drop n s)
          (sym length-front)
      ∙ ap (λ t. t ++ drop n s) (option_bytes-eq prev (take n s) p)

-- A segment of 65536 characters or more, up to 131071, is written with a length that is 65536 too
-- small: the parser reads only its first characters as the option's value, and goes on among the
-- other 65536.
pub decode-encode_long_segment :
    (env : Env) (s : Text) (n prev count size : ℕ) (out rest : List ℕ) (w : World)
    → Grants env
    → length s ≡ 2 ^ 16 + n
    → n < 2 ^ 16
    → prev ≤ 11
    → length out + 1 + length (extension n) + length s ≤ size
    → (encoded : List ℕ) × (encode_option s prev size out ≡ ok (out ++ encoded))
      × Ensures
          (λ r v. (r.0 ≡ option_from 11 (take n s)) × (r.1 + 2 ^ 16 ≡ length out + length encoded))
          Never
          (decode_option env (out ++ (encoded ++ rest)) (length out) prev count w)
decode-encode_long_segment env s n prev count size out rest w grants size_s small p room = (
  front ++ drop n s,
  encode_option-wraps s n prev size out (omega (arith, size_s, small)) small p room
      ∙ ap (λ t. ok (out ++ t)) (split-eq s n size_s prev p),
  subst (λ t. Ensures After Never (decode_option env (out ++ t) (length out) prev count w))
      (sym (append_assoc front (drop n s) rest))
      (Ensures-weaken Read After Never Never
        (decode_option env (out ++ (front ++ (drop n s ++ rest))) (length out) prev count w)
        (decode_option-reads env grants out prev count 11 (take n s) (drop n s ++ rest) w p
          (omega arith) (omega (arith, length-front s n size_s, small))
          (omega (arith, length-back s n size_s, length-append {0} (drop n s) rest)))
        (λ r v e. (
          ap (λ x. x.0) e,
          omega
              (arith, ap (λ x. x.1) e, length-back s n size_s, length-append {0} front (drop n s)),
        ))
        (λ c v k. k)),
)
  where
    front : List ℕ
    front = bytes_of prev 11 (take n s)

    Read : CoapOption × ℕ → World → Type 0
    Read r v = r ≡ (option_from 11 (take n s), length out + length front)

    After : CoapOption × ℕ → World → Type 0
    After r v =
        (r.0 ≡ option_from 11 (take n s)) × (r.1 + 2 ^ 16 ≡ length out + length (front ++ drop n s))
