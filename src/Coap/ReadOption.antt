-- ===== src/Coap/ReadOption.antt =====
-- The CoAP parser on one option that is laid out as Coap.Format says.
use paum_io_t.Common.{
  ℕ, ◌+◌, ◌-◌, ◌*◌, ◌/◌, ◌%◌, ◌^◌, ◌≤◌, ◌<◌, ◌≡◌, refl, sym, ap, ap₂, ◌∙◌, subst, arith, true,
  false, List, [], ◌∷◌, ◌++◌, length, length-append, append_assoc, take, take-length_append,
  drop-length_append, get_or, ltb, bit_and, lt→ltb, le→ltb_false,
}
use paum_io_t.Common.Bits.{low_nibble}
use paum_io_t.Codes.{packet_malformed}
use paum_io_t.World.{Env, Grants, World, ok, ◌>>=◌, fail_if, lift, read, slice, alloc}
use paum_io_t.World.Rules.{Ensures, >>=-Ensures, ok-Ensures, lift-ok}
use paum_io_t.Mqtt.Bounds.{read-eq-ok, slice-eq-ok}
use paum_io_t.Mqtt.Delivery.{Never}
use paum_io_t.Coap.Fields.{CoapOption, coap_decode_option_ext}
use paum_io_t.Coap.Parse.{realloc_options, take_bytes, decode_option}
use paum_io_t.Coap.Extension.{nibble, extension, decode-eq}
use paum_io_t.Coap.Layout.{nibble-small}
use paum_io_t.Coap.Format.{bytes_of, content, option_from}

pub get_or-at :
    (before : List ℕ) (b : ℕ) (rest : List ℕ) (d : ℕ)
    → get_or (before ++ (b ∷ rest)) (length before) d ≡ b
get_or-at [] b rest d = refl
get_or-at (x ∷ before) b rest d = get_or-at before b rest d

pub slice-inside :
    (before s rest : List ℕ) → slice (before ++ (s ++ rest)) (length before) (length s) ≡ ok s
slice-inside before s rest =
    slice-eq-ok (before ++ (s ++ rest)) (length before) (length s)
      (omega (arith, length-append {0} before (s ++ rest), length-append {0} s rest))
    ∙ ap ok
        (ap (take (length s)) (drop-length_append before (s ++ rest)) ∙ take-length_append s rest)

-- The extension of a number, at its place in a packet that has a byte behind it.
extension-reads :
    (v pos : ℕ) (packet before rest : List ℕ)
    → before ++ (extension v ++ rest) ≡ packet
    → length before ≡ pos
    → v < 2 ^ 16
    → 0 < length rest
    → coap_decode_option_ext packet pos (nibble v) ≡ ok (v, pos + length (extension v))
extension-reads v pos packet before [] e k small more = absurd (omega (arith, more))
extension-reads v pos packet before (b ∷ rest) e k small more =
    subst (λ q. coap_decode_option_ext packet q (nibble v) ≡ ok (v, q + length (extension v))) k
      (subst
        (λ t.
          coap_decode_option_ext t (length before) (nibble v)
          ≡ ok (v, length before + length (extension v)))
        e (decode-eq v before b rest small))

module _ (env : Env) (grants : Grants env) where
  realloc-granted :
      (n : ℕ) (w : World) → Ensures (λ granted v. granted ≡ true) Never (realloc_options env n w)
  unfolding realloc_options
  realloc-granted n w = grants w.calls

  pub take_bytes-granted :
      (packet : List ℕ) (pos : ℕ) (bytes : List ℕ) (w : World)
      → slice packet pos (length bytes) ≡ ok bytes
      → Ensures (λ r v. r ≡ content bytes) Never (take_bytes env packet pos (length bytes) w)
  unfolding take_bytes ◌>>=◌ alloc
  take_bytes-granted packet pos [] w e = refl
  take_bytes-granted packet pos (b ∷ bytes) w e =
      rw (lt→ltb 0 (length (b ∷ bytes)) (omega arith), grants w.calls, e) refl

  -- An option at its place, with a byte behind it if it has no value.
  pub decode_option-reads :
      (before : List ℕ) (prev count number : ℕ) (value rest : List ℕ) (w : World)
      → prev ≤ number
      → number < 2 ^ 16
      → length value < 2 ^ 16
      → 0 < length value + length rest
      → Ensures
          (λ r v.
            r ≡ (option_from number value, length before + length (bytes_of prev number value)))
          Never
          (decode_option env
            (before ++ (bytes_of prev number value ++ rest))
            (length before)
            prev
            count
            w)
  unfolding decode_option
  decode_option-reads before prev count number value rest w p small short more =
      ok-Ensures After Never (lift (read packet (length before))) _ w {a = header} {w' = w}
        (lift-ok w first)
        (ok-Ensures After Never _ _ w {a = (d, at_size)} {w' = w} (lift-ok w delta) (
          ok-Ensures After Never _ _ w {a = (n, at_value)} {w' = w} (lift-ok w size) (
            ok-Ensures After Never _ _ w {a = tt} {w' = w}
              (ap (λ b. fail_if b packet_malformed w) inside)
              (>>=-Ensures (λ granted v. granted ≡ true) After Never (realloc_options env count) _ w
                (realloc-granted count w)
                λ granted v g. rw g (
                  ok-Ensures After Never _ _ v {a = tt} {w' = v} refl (
                    >>=-Ensures (λ r u. r ≡ content value) After Never _ _ v
                      (take_bytes-granted packet at_value value v text)
                      λ r u e. rw e (
                        ap₂ (λ k q. (record { number = k; size = n; value = content value }, q)) sum
                          behind)))))))
    where
      d : ℕ
      d = number - prev

      n : ℕ
      n = length value

      header : ℕ
      header = nibble d * 16 + nibble n

      packet : List ℕ
      packet = before ++ (bytes_of prev number value ++ rest)

      at_size : ℕ
      at_size = length before + 1 + length (extension d)

      at_value : ℕ
      at_value = at_size + length (extension n)

      After : CoapOption × ℕ → World → Type 0
      After r v =
          r ≡ (option_from number value, length before + length (bytes_of prev number value))

      width :
          length (bytes_of prev number value)
          ≡ 1 + (length (extension d) + (length (extension n) + n))
      width = omega (
        arith,
        length-append {0} (extension d) (extension n ++ value),
        length-append {0} (extension n) value,
      )

      total : length packet ≡ at_value + n + length rest
      total = omega (
        arith,
        width,
        length-append {0} before (bytes_of prev number value ++ rest),
        length-append {0} (bytes_of prev number value) rest,
      )

      to_delta : List ℕ
      to_delta = before ++ (header ∷ [])

      to_size : List ℕ
      to_size = to_delta ++ extension d

      to_value : List ℕ
      to_value = to_size ++ extension n

      from_delta : to_delta ++ (extension d ++ ((extension n ++ value) ++ rest)) ≡ packet
      from_delta =
          append_assoc before (header ∷ []) (extension d ++ ((extension n ++ value) ++ rest))
          ∙ ap (λ t. before ++ (header ∷ t))
              (sym (append_assoc (extension d) (extension n ++ value) rest))

      from_size : to_size ++ (extension n ++ (value ++ rest)) ≡ packet
      from_size =
          append_assoc to_delta (extension d) (extension n ++ (value ++ rest))
          ∙ ap (λ t. to_delta ++ (extension d ++ t)) (sym (append_assoc (extension n) value rest))
          ∙ from_delta

      from_value : to_value ++ (value ++ rest) ≡ packet
      from_value = append_assoc to_size (extension n) (value ++ rest) ∙ from_size

      length_delta : length to_delta ≡ length before + 1
      length_delta = length-append before (header ∷ [])

      length_size : length to_size ≡ at_size
      length_size = omega (arith, length_delta, length-append {0} to_delta (extension d))

      length_value : length to_value ≡ at_value
      length_value = omega (arith, length_size, length-append {0} to_size (extension n))

      high : bit_and (header / 16) 0x0f ≡ nibble d
      high = omega (arith, low_nibble (header / 16), nibble-small n, nibble-small d)

      low : bit_and header 0x0f ≡ nibble n
      low = omega (arith, low_nibble header, nibble-small n)

      first : read packet (length before) ≡ ok header
      first =
          read-eq-ok packet (length before) (omega (arith, total))
          ∙ ap ok (get_or-at before header ((extension d ++ (extension n ++ value)) ++ rest) 0)

      delta :
          coap_decode_option_ext packet (length before + 1) (bit_and (header / 16) 0x0f)
          ≡ ok (d, at_size)
      delta =
          ap (coap_decode_option_ext packet (length before + 1)) high
          ∙ extension-reads d (length before + 1) packet to_delta ((extension n ++ value) ++ rest)
              from_delta length_delta (omega (arith, small))
              (omega (
                arith,
                more,
                length-append {0} (extension n ++ value) rest,
                length-append {0} (extension n) value,
              ))

      size : coap_decode_option_ext packet at_size (bit_and header 0x0f) ≡ ok (n, at_value)
      size =
          ap (coap_decode_option_ext packet at_size) low
          ∙ extension-reads n at_size packet to_size (value ++ rest) from_size length_size short
              (omega (arith, more, length-append {0} value rest))

      inside : ltb (length packet) (at_value + n) ≡ false
      inside = le→ltb_false (length packet) (at_value + n) (omega (arith, total))

      text : slice packet at_value n ≡ ok value
      text =
          subst (λ q. slice packet q n ≡ ok value) length_value
            (subst (λ t. slice t (length to_value) n ≡ ok value) from_value
              (slice-inside to_value value rest))

      sum : (prev + d) % 2 ^ 16 ≡ number
      sum = omega (arith, p, small)

      behind : at_value + n ≡ length before + length (bytes_of prev number value)
      behind = omega (arith, width)
