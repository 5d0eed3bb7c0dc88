-- ===== src/Coap/Extension.antt =====
-- The numbers that the nibbles of an option header stand for.
use paum_io_t.Common.{
  ℕ, suc, ◌+◌, ◌-◌, ◌/◌, ◌%◌, ◌^◌, ◌≤◌, ◌<◌, ◌≡◌, refl, sym, ap, ◌∙◌, arith, List, [], ◌∷◌, ◌++◌,
  length, length-append, append_assoc, append-nil, ltb, if◌then◌else◌, get_elem?, some,
}
use paum_io_t.Common.Bits.{low_byte, join_bytes}
use paum_io_t.World.{ok, read, store}
use paum_io_t.Coap.Fields.{coap_decode_option_ext, coap_encode_option_ext}

-- The nibble and the bytes for a number, as RFC 7252 has them.
abbrev pub nibble : ℕ → ℕ
nibble v = if ltb v 13 then v else if ltb v 269 then 13 else 14

abbrev pub extension : ℕ → List ℕ
extension v =
    if ltb v 13
    then []
    else if ltb v 269
    then (v - 13) ∷ []
    else ((v - 269) / 256) ∷ ((v - 269) % 256) ∷ []

encode-eq :
    (v size : ℕ) (out : List ℕ)
    → v < 2 ^ 16
    → length out + length (extension v) ≤ size
    → coap_encode_option_ext v size out ≡ ok (nibble v, out ++ extension v)
unfolding coap_encode_option_ext store
encode-eq v size out h fits = ground (
  arith,
  append-nil out,
  low_byte (v - 269),
  append_assoc out (((v - 269) / 256) ∷ []) (((v - 269) % 256) ∷ []),
  length-append out (((v - 269) / 256) ∷ []),
)

get_elem?-at :
    (out : List ℕ) (b : ℕ) (rest : List ℕ) → get_elem? (out ++ (b ∷ rest)) (length out) ≡ some b
get_elem?-at [] b rest = refl
get_elem?-at (x ∷ out) b rest = get_elem?-at out b rest

get_elem?-next :
    (out : List ℕ) (a b : ℕ) (rest : List ℕ)
    → get_elem? (out ++ (a ∷ (b ∷ rest))) (length out + 1) ≡ some b
get_elem?-next [] a b rest = refl
get_elem?-next (x ∷ out) a b rest =
    ap (get_elem? (x ∷ (out ++ (a ∷ (b ∷ rest))))) shift ∙ get_elem?-next out a b rest
  where
    shift : suc (length out) + 1 ≡ suc (length out + 1)
    shift = omega arith

pub decode-eq :
    (v : ℕ) (out : List ℕ) (b : ℕ) (rest : List ℕ)
    → v < 2 ^ 16
    → coap_decode_option_ext (out ++ (extension v ++ (b ∷ rest))) (length out) (nibble v)
      ≡ ok (v, length out + length (extension v))
unfolding coap_decode_option_ext read
decode-eq v out b rest h = ground (
  arith,
  length-append out (b ∷ rest),
  length-append out ((v - 13) ∷ (b ∷ rest)),
  length-append out (((v - 269) / 256) ∷ (((v - 269) % 256) ∷ (b ∷ rest))),
  get_elem?-at out (v - 13) (b ∷ rest),
  get_elem?-at out ((v - 269) / 256) (((v - 269) % 256) ∷ (b ∷ rest)),
  get_elem?-next out ((v - 269) / 256) ((v - 269) % 256) (b ∷ rest),
  join_bytes ((v - 269) / 256) ((v - 269) % 256),
)

-- An extension that has bytes needs none behind it.
pub decode-eq_end :
    (v : ℕ) (out : List ℕ)
    → 13 ≤ v
    → v < 2 ^ 16
    → coap_decode_option_ext (out ++ extension v) (length out) (nibble v)
      ≡ ok (v, length out + length (extension v))
unfolding coap_decode_option_ext read
decode-eq_end v out long h = ground (
  arith,
  length-append out ((v - 13) ∷ []),
  length-append out (((v - 269) / 256) ∷ (((v - 269) % 256) ∷ [])),
  get_elem?-at out (v - 13) [],
  get_elem?-at out ((v - 269) / 256) (((v - 269) % 256) ∷ []),
  get_elem?-next out ((v - 269) / 256) ((v - 269) % 256) [],
  join_bytes ((v - 269) / 256) ((v - 269) % 256),
)

-- A number below 2 ^ 16 whose extension fits the buffer is encoded, and decoding its nibble at that
-- place, with at least one byte behind the extension, gives the number and the position behind it.
pub coap_decode-encode_option_ext :
    (v size : ℕ) (out : List ℕ) (b : ℕ) (rest : List ℕ)
    → v < 2 ^ 16
    → length out + length (extension v) ≤ size
    → (coap_encode_option_ext v size out ≡ ok (nibble v, out ++ extension v))
      × (coap_decode_option_ext ((out ++ extension v) ++ (b ∷ rest)) (length out) (nibble v)
          ≡ ok (v, length (out ++ extension v)))
coap_decode-encode_option_ext v size out b rest h fits = (
  encode-eq v size out h fits,
  ap (λ t. coap_decode_option_ext t (length out) (nibble v))
        (append_assoc out (extension v) (b ∷ rest))
      ∙ decode-eq v out b rest h
      ∙ ap (λ n. ok (v, n)) (sym (length-append out (extension v))),
)
