-- ===== src/Mqtt/Overlong.antt =====
-- Variable length integers of five bytes.
use paum_io_t.World.{Result, fault}
use paum_io_t.Mqtt.Bounds.{product-lt}
use paum_io_t.Common.Bits.{low_seven, top_bit}
use paum_io_t.Common.{ltb, bit_and, if◌then◌else◌}
use paum_io_t.Common.{
  ℕ, zero, suc, ◌+◌, ◌*◌, ◌/◌, ◌%◌, ◌^◌, ◌≤◌, ◌<◌, ◌≡◌, refl, ap, ◌∙◌, arith, List, ◌∷◌, ◌++◌,
  length, length-append, le→leb, le→ltb_false, lt→leb_false, ne→==_false, drop-length_append,
}
use paum_io_t.Codes.{packet_malformed}
use paum_io_t.World.{ok, err}
use paum_io_t.Mqtt.Fields.{var_int_loop, mqtt_decode_var_int, mqtt_encode_var_int}
use paum_io_t.Mqtt.VarInt.{groups, length-groups, factor_le, encode_var_int-groups}
use native.Mathlib.Nat.{pow-suc}

-- What becomes of a fifth byte: it is refused, but its product with the multiplier overflows an `int`
-- from 8 on.
abbrev refusal : ℕ → ℕ → Result (ℕ × ℕ)
refusal v limit = if ltb v limit then err packet_malformed else fault

fifth_byte :
    (b pos val mult : ℕ) (rest : List ℕ)
    → b < 128
    → mult ≡ 128 ^ 4
    → var_int_loop (b ∷ rest) pos val mult ≡ refusal b 8
unfolding var_int_loop
fifth_byte b pos val mult rest small e = ground (arith, low_seven b, ap (λ m. bit_and b 0x7f * m) e)

overlong_byte :
    (g pos val mult : ℕ) (rest : List ℕ)
    → g < 128
    → mult ≤ 128 * 128 * 128
    → var_int_loop ((g + 128) ∷ rest) pos val mult
      ≡ var_int_loop rest (pos + 1) ((val + g * mult) % 2 ^ 32) (mult * 128)
unfolding var_int_loop
overlong_byte g pos val mult rest hg hm =
    ground (arith, low_seven (g + 128), top_bit (g + 128), product-lt (g + 128) mult hm)

loop-overlong :
    (k v pos val mult : ℕ) (rest : List ℕ)
    → 128 ^ k ≤ v
    → v < 128 * 128 ^ k
    → mult * 128 ^ k ≡ 128 ^ 4
    → var_int_loop (groups k v ++ rest) pos val mult ≡ refusal v (8 * 128 ^ k)
unfolding groups
loop-overlong zero v pos val mult rest h small e =
    fifth_byte v pos val mult rest (omega (arith, small)) (omega (arith, e))
loop-overlong (suc k) v pos val mult rest h small e =
    let long : 128 * 128 ^ k ≤ v = omega (arith, h, pow-suc 128 k) in
    let short : v < 128 * (128 * 128 ^ k) = omega (arith, small, pow-suc 128 k) in
    let left : mult * 128 ^ k ≡ 128 * 128 * 128 =
      omega (arith, e, ap (λ (t : ℕ). mult * t) (pow-suc 128 k)) in
    rw (le→ltb_false v 128 (omega (arith, long, positive k))) (
      overlong_byte (v % 128) pos val mult (groups k (v / 128) ++ rest) (omega arith)
        (factor_le k mult _ (omega (arith, left)))
      ∙ loop-overlong k (v / 128) (pos + 1) _ (mult * 128) rest (omega (arith, long))
          (omega (arith, short)) (omega (arith, left))
      ∙ ground (arith, pow-suc 128 k))
  where
    positive : (n : ℕ) → 1 ≤ 128 ^ n
    positive zero = omega arith
    positive (suc n) = omega (arith, positive n, pow-suc 128 n)

-- A `uint32_t` from 2 ^ 28 on is encoded into a buffer of five bytes or more, at any place in a packet,
-- but the decoder rejects the bytes as malformed if the number is below 2 ^ 31, and from there on its
-- product of the fifth byte and the multiplier overflows an `int`.
pub decode-encode_overlong :
    (v size : ℕ) (before rest : List ℕ)
    → 128 ^ 4 ≤ v
    → v < 2 ^ 32
    → 5 ≤ size
    → (encoded : List ℕ) × (mqtt_encode_var_int v size ≡ ok encoded)
      × (mqtt_decode_var_int (before ++ (encoded ++ rest)) (length before)
          ≡ (if ltb v (2 ^ 31) then err packet_malformed else fault))
decode-encode_overlong v size before rest h small room = (
  groups 4 v,
  encode_var_int-groups v size small
      ∙ rw
          (
            ne→==_false size 0 (λ e. omega (arith, e, room)),
            le→leb (length (groups 4 v)) size (omega (arith, length-groups 4 v, room)),
          )
          refl,
  unfold mqtt_decode_var_int in
      rw
        (
          lt→leb_false (length (before ++ (groups 4 v ++ rest))) (length before) (
              omega (
                arith,
                length-append before (groups 4 v ++ rest),
                length-append (groups 4 v) rest,
                length-groups 4 v,
              )),
          drop-length_append before (groups 4 v ++ rest),
        )
        (loop-overlong 4 v (length before) 0 1 rest h (omega (arith, small)) refl),
)
