-- ===== src/Coap/Layout.antt =====
-- The bytes of a CoAP packet, described apart from the code, and the encoder against them.
use paum_io_t.Common.{
  ℕ, zero, suc, ◌+◌, ◌-◌, ◌*◌, ◌%◌, ◌^◌, ◌≤◌, ◌<◌, ◌≡◌, refl, sym, ap, ap₂, ◌∙◌, subst, arith, List,
  [], ◌∷◌, ◌++◌, Option, none, some, length, length-append, append_assoc, append-nil, set, ltb,
  if◌then◌else◌, All, bit_or, lt→ltb, lt→leb_false, le→ltb_false,
}
use paum_io_t.Common.Bits.{bit_or_shift}
use paum_io_t.World.{Text, ok, and_then}
use paum_io_t.Mqtt.Format.{store-eq-ok, store_all-eq-ok}
use paum_io_t.Coap.Fields.{option_uri_path, coap_encode_option_ext}
use paum_io_t.Coap.Encode.{split_segment, patch, encode_option, encode_path}
use paum_io_t.Coap.Extension.{nibble, extension, coap_decode-encode_option_ext}
use paum_io_t.Coap.Path.{
  fields, non_empty, all_fields, fields_behind, split_segment-fields, Shorter,
  split_segment-Shorter,
}

-- A Uri-Path option after the option number `prev`.
abbrev pub option_bytes : ℕ → Text → List ℕ
option_bytes prev s = ((11 - prev) * 16 + nibble (length s)) ∷ (extension (length s) ++ s)

unfoldable pub path_bytes : ℕ → List Text → List ℕ
path_bytes prev [] = []
path_bytes prev (s ∷ ss) = option_bytes prev s ++ path_bytes option_uri_path ss

pub nibble-small : (v : ℕ) → nibble v < 15
nibble-small v = ground arith

set-length_append :
    (out : List ℕ) (a b : ℕ) (rest : List ℕ)
    → set (out ++ (a ∷ rest)) (length out) b ≡ out ++ (b ∷ rest)
set-length_append [] a b rest = refl
set-length_append (x ∷ out) a b rest = ap (λ t. x ∷ t) (set-length_append out a b rest)

patch-eq :
    (out : List ℕ) (a b : ℕ) (rest : List ℕ)
    → b < 256
    → patch (length out) b (out ++ (a ∷ rest)) ≡ ok (out ++ (b ∷ rest))
unfolding patch
patch-eq out a b rest h =
    rw
      (lt→ltb (length out) (length (out ++ (a ∷ rest)))
        (omega (arith, length-append {0} out (a ∷ rest))))
      (ap ok (ap (set (out ++ (a ∷ rest)) (length out)) small ∙ set-length_append out a b rest))
  where
    small : b % 256 ≡ b
    small = omega (arith, h)

encode_ext-eq :
    (v size : ℕ) (out : List ℕ)
    → v < 2 ^ 16
    → length out + length (extension v) ≤ size
    → coap_encode_option_ext v size out ≡ ok (nibble v, out ++ extension v)
encode_ext-eq v size out h fits = (coap_decode-encode_option_ext v size out 0 [] h fits).0

-- The steps of an option, where each fits. `n` is the length as a `uint16_t`.
pub encode_option-wraps :
    (s : Text) (n prev size : ℕ) (out : List ℕ)
    → length s % 2 ^ 16 ≡ n
    → n < 2 ^ 16
    → prev ≤ 11
    → length out + 1 + length (extension n) + length s ≤ size
    → encode_option s prev size out
      ≡ ok (out ++ (((11 - prev) * 16 + nibble n) ∷ (extension n ++ s)))
unfolding encode_option
encode_option-wraps s n prev size out word short p room =
    rw
      (
        lt→leb_false size (length out) (omega (arith, room)),
        store-eq-ok size 0 out (omega (arith, room)),
        delta,
        encode_ext-eq (11 - prev) size (out ++ (0 ∷ [])) (omega arith)
            (omega (arith, room, ap length no_delta, reserved)),
        no_delta,
        append-nil (out ++ (0 ∷ [])),
        word,
        encode_ext-eq n size (out ++ (0 ∷ [])) short (omega (arith, room, reserved)),
        append_assoc out (0 ∷ []) (extension n),
        header,
        patch-eq out 0 ((11 - prev) * 16 + nibble n) (extension n)
            (omega (arith, nibble-small n, p)),
        le→ltb_false size (length (out ++ (((11 - prev) * 16 + nibble n) ∷ extension n)) + length s)
            (omega (arith, room, patched)),
        store_all-eq-ok size s (out ++ (((11 - prev) * 16 + nibble n) ∷ extension n))
            (omega (arith, room, patched)),
      )
      (ap ok (append_assoc out (((11 - prev) * 16 + nibble n) ∷ extension n) s))
  where
    reserved : length (out ++ (0 ∷ [])) ≡ length out + 1
    reserved = omega (arith, length-append {0} out (0 ∷ []))

    patched :
        length (out ++ (((11 - prev) * 16 + nibble n) ∷ extension n))
        ≡ length out + 1 + length (extension n)
    patched = omega (arith, length-append {0} out (((11 - prev) * 16 + nibble n) ∷ extension n))

    no_delta : extension (11 - prev) ≡ []
    no_delta = ground arith

    delta : (option_uri_path + 2 ^ 16 - prev) % 2 ^ 16 ≡ 11 - prev
    delta = omega (arith, p)

    small : nibble (11 - prev) ≡ 11 - prev
    small = ground arith

    header : bit_or (nibble (11 - prev) * 16) (nibble n) ≡ (11 - prev) * 16 + nibble n
    header =
        ap (λ d. bit_or (d * 16) (nibble n)) small
        ∙ bit_or_shift 4 (11 - prev) (nibble n) (omega (arith, nibble-small n))

pub encode_option-eq :
    (s : Text) (prev size : ℕ) (out : List ℕ)
    → prev ≤ 11
    → length s < 2 ^ 16
    → length out + length (option_bytes prev s) ≤ size
    → encode_option s prev size out ≡ ok (out ++ option_bytes prev s)
encode_option-eq s prev size out p short fits =
    encode_option-wraps s (length s) prev size out (omega (arith, short)) short p
      (omega (arith, fits, length-append {0} (extension (length s)) s))

-- One round of the loop, whatever the rest of it does.
round-eq :
    (fuel : ℕ) (segment : Text) (next : Option Text) (prev size : ℕ) (out : List ℕ)
    → prev ≤ 11
    → All (λ s. length s < 2 ^ 16) (non_empty (segment ∷ fields_behind next))
    → length out + length (path_bytes prev (non_empty (segment ∷ fields_behind next))) ≤ size
    → ((before : ℕ) (o : List ℕ)
        → before ≤ 11
        → All (λ s. length s < 2 ^ 16) (non_empty (fields_behind next))
        → length o + length (path_bytes before (non_empty (fields_behind next))) ≤ size
        → encode_path fuel next before size o
          ≡ ok (o ++ path_bytes before (non_empty (fields_behind next))))
    → (if ltb 0 (length segment)
        then and_then
            (encode_option segment prev size out)
            (λ o. encode_path fuel next option_uri_path size o)
        else encode_path fuel next prev size out)
      ≡ ok (out ++ path_bytes prev (non_empty (segment ∷ fields_behind next)))
unfolding path_bytes non_empty
round-eq fuel [] next prev size out p short fits rest = rest prev out p short fits
round-eq fuel (c ∷ cs) next prev size out p short fits rest =
    let option : List ℕ = option_bytes prev (c ∷ cs) in
    let after : List ℕ = path_bytes option_uri_path (non_empty (fields_behind next)) in
    let room : length out + (length option + length after) ≤ size =
      omega (arith, fits, length-append {0} option after) in
    rw
      (
        lt→ltb 0 (length (c ∷ cs)) (omega arith),
        encode_option-eq (c ∷ cs) prev size out p short.0 (omega (arith, room)),
        rest option_uri_path (out ++ option) (omega arith) short.1
            (omega (arith, room, length-append {0} out option)),
      )
      (ap ok (append_assoc out option after))

-- The loop writes an option for each segment, with as much fuel as the path has characters.
pub encode_path-eq :
    (fuel : ℕ) (path : Option Text) (prev size : ℕ) (out : List ℕ)
    → prev ≤ 11
    → Shorter (suc fuel) path
    → All (λ s. length s < 2 ^ 16) (non_empty (fields_behind path))
    → length out + length (path_bytes prev (non_empty (fields_behind path))) ≤ size
    → encode_path fuel path prev size out
      ≡ ok (out ++ path_bytes prev (non_empty (fields_behind path)))
unfolding encode_path path_bytes non_empty fields
encode_path-eq fuel none prev size out p enough short fits = ap ok (sym (append-nil out))
encode_path-eq fuel (some []) prev size out p enough short fits = ap ok (sym (append-nil out))
encode_path-eq zero (some (c ∷ cs)) prev size out p enough short fits =
    absurd (omega (arith, enough))
encode_path-eq (suc fuel) (some (c ∷ cs)) prev size out p enough short fits =
    let next : Option Text = (split_segment (c ∷ cs)).1 in
    subst
      (λ fs.
        encode_path (suc fuel) (some (c ∷ cs)) prev size out
        ≡ ok (out ++ path_bytes prev (non_empty fs)))
      same
      (round-eq fuel (split_segment (c ∷ cs)).0 next prev size out p
        (subst (λ fs. All (λ s. length s < 2 ^ 16) (non_empty fs)) (sym same) short)
        (subst (λ fs. length out + length (path_bytes prev (non_empty fs)) ≤ size) (sym same) fits)
        λ before o q few room.
          encode_path-eq fuel next before size o q (shorter next (split_segment-Shorter (c ∷ cs)))
            few room)
  where
    same :
        (split_segment (c ∷ cs)).0 ∷ fields_behind (split_segment (c ∷ cs)).1 ≡ all_fields (c ∷ cs)
    same = ap₂ (λ s ss. s ∷ ss) (split_segment-fields (c ∷ cs)).0 (split_segment-fields (c ∷ cs)).1

    shorter : (o : Option Text) → Shorter (length (c ∷ cs)) o → Shorter (suc fuel) o
    shorter none h = tt
    shorter (some path) h = omega (arith, h, enough)
