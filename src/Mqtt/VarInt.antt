-- ===== src/Mqtt/VarInt.antt =====
-- Variable length integers: what the encoder writes, and what the decoder makes of any bytes.
use paum_io_t.Common.{
  dec_lt, lt→ltb, le→ltb_false, ◌∙◌, drop-length_append, ◌==◌, lt→leb_false, ℕ, zero, suc, ◌+◌, ◌*◌,
  ◌/◌, ◌%◌, ◌^◌, ◌≤◌, ◌<◌, ◌≡◌, ap, arith, List, [], ◌∷◌, ◌++◌, length, length-append, ltb, leb,
  if◌then◌else◌, append_assoc,
}
use paum_io_t.Codes.{buffer_overflow}
use paum_io_t.Common.Bits.{low_seven, top_bit, set_top_bit}
use paum_io_t.World.{ok, err}
use paum_io_t.Codes.{buffer_overflow, invalid_param}
use paum_io_t.Mqtt.Fields.{
  var_int_loop, encode_var_int_loop, mqtt_decode_var_int, mqtt_encode_var_int,
}
use native.Mathlib.Nat.{div-add-mod, pow-suc}

-- The groups of seven bits of `v`, lowest first, at most `k + 1` of them.
unfoldable pub groups : ℕ → ℕ → List ℕ
groups zero v = v ∷ []
groups (suc k) v =
    let rest = groups k (v / 128) in if ltb v 128 then v ∷ [] else (v % 128 + 128) ∷ rest

pub length-groups : (k v : ℕ) → (1 ≤ length (groups k v)) × (length (groups k v) ≤ k + 1)
unfolding groups
length-groups zero v = omega arith
length-groups (suc k) v = ground (arith, length-groups k (v / 128))

-- One round of the encoder's loop, the last of a number and an inner one.
last_round :
    (f v size : ℕ) (out : List ℕ)
    → v < 128
    → encode_var_int_loop (suc f) v size out
      ≡ (if leb size (length out) then err buffer_overflow else ok (out ++ (v ∷ [])))
unfolding encode_var_int_loop
last_round f v size out h = ground arith

inner_round :
    (f v size : ℕ) (out : List ℕ)
    → 128 ≤ v
    → encode_var_int_loop (suc f) v size out ≡ (
        if leb size (length out)
        then err buffer_overflow
        else encode_var_int_loop f (v / 128) size (out ++ ((v % 128 + 128) ∷ [])))
unfolding encode_var_int_loop
inner_round f v size out h = ground (arith, set_top_bit (v % 128) (omega arith))

-- The loop writes the groups if they fit, and reports that they do not otherwise.
encode_loop-groups :
    (k v size : ℕ) (out : List ℕ)
    → v < 128 ^ suc k
    → encode_var_int_loop (suc k) v size out ≡ (
        if leb (length out + length (groups k v)) size
        then ok (out ++ groups k v)
        else err buffer_overflow)
unfolding groups
encode_loop-groups zero v size out h = rw (last_round 0 v size out (omega arith)) (ground arith)
encode_loop-groups (suc k) v size out h = elim (dec_lt v 128) [
  | yes p ↦ rw (last_round (suc k) v size out p, lt→ltb v 128 p) (ground arith)
  | no p ↦
      rw
        (
          inner_round (suc k) v size out (omega arith),
          encode_loop-groups k (v / 128) size (out ++ ((v % 128 + 128) ∷ []))
              (omega (arith, pow-suc 128 (suc k))),
          le→ltb_false v 128 (omega arith),
        )
        (ground (
          arith,
          append_assoc out ((v % 128 + 128) ∷ []) (groups k (v / 128)),
          length-append out ((v % 128 + 128) ∷ []),
          length-groups k (v / 128),
        ))
]

pub regroup : (v m : ℕ) → v % 128 * m + v / 128 * (m * 128) ≡ v * m
regroup v m = omega (arith, ap (λ (t : ℕ). t * m) (div-add-mod v 128))

-- One byte of the decoder's loop, the last of a number and an inner one.
last_byte :
    (b pos val mult : ℕ) (rest : List ℕ)
    → b < 128
    → mult ≤ 128 * 128 * 128
    → val + b * mult < 2 ^ 31
    → var_int_loop (b ∷ rest) pos val mult ≡ ok (val + b * mult, pos + 1)
unfolding var_int_loop
last_byte b pos val mult rest hb hm fits = ground (arith, low_seven b, top_bit b)

pub inner_byte :
    (g pos val mult : ℕ) (rest : List ℕ)
    → g < 128
    → mult ≤ 128 * 128 * 128
    → val + g * mult < 2 ^ 31
    → var_int_loop ((g + 128) ∷ rest) pos val mult
      ≡ var_int_loop rest (pos + 1) (val + g * mult) (mult * 128)
unfolding var_int_loop
inner_byte g pos val mult rest hg hm fits = ground (arith, low_seven (g + 128), top_bit (g + 128))

pub factor_le : (k m n : ℕ) → m * 128 ^ k ≤ n → m ≤ n
factor_le zero m n h = omega arith
factor_le (suc k) m n h = factor_le k m n (omega (arith, ap (λ (t : ℕ). m * t) (pow-suc 128 k)))

loop-groups :
    (k v pos val mult : ℕ) (rest : List ℕ)
    → v < 128 ^ suc k
    → mult * 128 ^ k ≤ 128 * 128 * 128
    → val + v * mult < 2 ^ 31
    → var_int_loop (groups k v ++ rest) pos val mult
      ≡ ok (val + v * mult, pos + length (groups k v))
unfolding groups
loop-groups zero v pos val mult rest h hm fits =
    last_byte v pos val mult rest (omega arith) (omega arith) fits
loop-groups (suc k) v pos val mult rest h hm fits = elim (dec_lt v 128) [
  | yes p ↦ rw (lt→ltb v 128 p) (last_byte v pos val mult rest p (factor_le (suc k) mult _ hm) fits)
  | no p ↦ rw (le→ltb_false v 128 (omega arith)) (
      inner_byte (v % 128) pos val mult (groups k (v / 128) ++ rest) (omega arith)
        (factor_le (suc k) mult _ hm) (omega (arith, regroup v mult))
      ∙ loop-groups k (v / 128) (pos + 1) (val + v % 128 * mult) (mult * 128) rest
          (omega (arith, pow-suc 128 (suc k)))
          (omega (arith, ap (λ (t : ℕ). mult * t) (pow-suc 128 k))) (omega (arith, regroup v mult))
      ∙ ground (arith, regroup v mult))
]

-- One more group is not used by a number that needs none.
groups_stable : (k v : ℕ) → v < 128 ^ suc k → groups (suc k) v ≡ groups k v
unfolding groups
groups_stable zero v h = rw (lt→ltb v 128 (omega arith))
groups_stable (suc k) v h =
    ground (arith, groups_stable k (v / 128) (omega (arith, pow-suc 128 (suc k))))

-- Decoding what the encoder wrote for a number below 2 ^ 28, at any place in a packet, gives the
-- number and the position after it.
pub decode-groups :
    (v : ℕ) (before rest : List ℕ)
    → v < 128 ^ 4
    → mqtt_decode_var_int (before ++ (groups 4 v ++ rest)) (length before)
      ≡ ok (v, length before + length (groups 4 v))
unfolding mqtt_decode_var_int
decode-groups v before rest h =
    rw
      (
        groups_stable 3 v h,
        lt→leb_false (length (before ++ (groups 3 v ++ rest))) (length before) (
            omega (
              arith,
              length-append before (groups 3 v ++ rest),
              length-append (groups 3 v) rest,
              length-groups 3 v,
            )),
        drop-length_append before (groups 3 v ++ rest),
        loop-groups 3 v (length before) 0 1 rest h (omega arith) (omega arith),
      )
      (ground arith)

-- On every `uint32_t` the encoder either writes the groups of the number or reports that they do
-- not fit: its loop never runs out of rounds.
pub encode_var_int-groups :
    (v size : ℕ)
    → v < 2 ^ 32
    → mqtt_encode_var_int v size ≡ (
        if size == 0
        then err invalid_param
        else if leb (length (groups 4 v)) size
        then ok (groups 4 v)
        else err buffer_overflow)
unfolding mqtt_encode_var_int
encode_var_int-groups v size h = ground (arith, encode_loop-groups 4 v size [])
