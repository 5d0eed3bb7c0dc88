-- ===== src/Mqtt/Bounds.antt =====
-- No read outside the packet: where the positions that the decoder computes lie.
use native.Mathlib.Nat.{pow-suc}
use paum_io_t.Mqtt.VarInt.{factor_le}
use paum_io_t.Common.Bits.{low_seven}
use paum_io_t.Common.{
  zero, suc, ◌⊎◌, ◌==◌, inl, inr, true, false, Bool-cases, leb, lt→leb_false, lt→ltb, le→ltb_false,
  refl, ap, ==→eq,
}
use paum_io_t.Common.{
  ℕ, ◌+◌, ◌*◌, ◌≤◌, ◌<◌, ◌≡◌, arith, List, [], ◌∷◌, length, drop, length-drop, take, get_or,
  get_elem?-eq-get_or, ◌^◌, bit_or, bit_and, le→leb,
}
use paum_io_t.World.{Result, ok, read, slice}
use paum_io_t.World.Rules.{Yields}
use paum_io_t.Mqtt.Fields.{var_int_loop, mqtt_decode_var_int, read_u16}
use paum_io_t.Mqtt.Decode.{skip_packet_id, skip_properties}

pub read-eq-ok : (xs : List ℕ) (i : ℕ) → i < length xs → read xs i ≡ ok (get_or xs i 0)
unfolding read
read-eq-ok xs i h = rw (get_elem?-eq-get_or xs i 0 h, read)

pub slice-eq-ok :
    (xs : List ℕ) (i n : ℕ) → i + n ≤ length xs → slice xs i n ≡ ok (take n (drop i xs))
unfolding slice
slice-eq-ok xs i n h = rw (le→leb _ _ h)

pub read_u16-eq-ok :
    (xs : List ℕ) (i : ℕ)
    → i + 2 ≤ length xs
    → read_u16 xs i ≡ ok (bit_or (get_or xs i 0 * 256) (get_or xs (i + 1) 0))
unfolding read_u16
read_u16-eq-ok xs i h = ground (arith, read-eq-ok xs i, read-eq-ok xs (i + 1))

-- A value and a position in the range given.
abbrev pub Within {ℓ} : {A : Type ℓ} → ℕ → ℕ → Result (A × ℕ) → Type 0
Within lo hi = Yields (λ r. (lo ≤ r.1) × (r.1 ≤ hi))

-- The product of seven bits and a multiplier of at most four bytes is an `int`.
pub product-lt : (b mult : ℕ) → mult ≤ 128 * 128 * 128 → bit_and b 0x7f * mult < 2 ^ 31
product-lt b mult h = below (bit_and b 0x7f) (omega (arith, low_seven b))
  where
    below : (low : ℕ) → low < 128 → low * mult < 2 ^ 31
    below low l = grind arith

-- A number whose first byte is the first of these, after `4 - k` others that go on: if it goes on to a
-- fifth byte, the product that is made of that byte is an `int`.
abbrev pub HasSmallFifth : ℕ → List ℕ → Type 0
HasSmallFifth k [] = Unit {0}
HasSmallFifth zero (b ∷ bs) = bit_and b 0x7f < 8
HasSmallFifth (suc k) (b ∷ bs) = ((bit_and b 0x80 == 0) ≡ true) ⊎ HasSmallFifth k bs

loop-Within :
    (k : ℕ) (rest : List ℕ) (pos val mult lo hi : ℕ)
    → mult * 128 ^ k ≡ 128 ^ 4
    → HasSmallFifth k rest
    → lo ≤ pos + 1
    → pos + length rest ≤ hi
    → Within lo hi (var_int_loop rest pos val mult)
unfolding var_int_loop
loop-Within zero [] pos val mult lo hi e s h k = tt
loop-Within (suc n) [] pos val mult lo hi e s h k = tt
loop-Within zero (b ∷ bs) pos val mult lo hi e s h k =
    rw
      (
        lt→leb_false (2 ^ 31) (bit_and b 0x7f * mult)
            (omega (arith, s, ap (λ m. bit_and b 0x7f * m) whole)),
        lt→ltb (128 * 128 * 128) mult (omega (arith, whole)),
      )
      tt
  where
    whole : mult ≡ 2 ^ 28
    whole = omega (arith, e)
loop-Within (suc n) (b ∷ bs) pos val mult lo hi e s h k =
    let left : mult * 128 ^ n ≡ 128 * 128 * 128 =
      omega (arith, e, ap (λ (t : ℕ). mult * t) (pow-suc 128 n)) in
    let small : mult ≤ 128 * 128 * 128 = factor_le n mult _ (omega (arith, left)) in
    rw
      (
        lt→leb_false (2 ^ 31) (bit_and b 0x7f * mult) (product-lt b mult small),
        le→ltb_false (128 * 128 * 128) mult small,
      )
      (elim (Bool-cases (bit_and b 0x80 == 0)) [
        | inl last ↦ rw last (omega (arith, h), omega (arith, k))
        | inr more ↦ rw more (
            loop-Within n bs (pos + 1) _ (mult * 128) lo hi (omega (arith, left))
              (elim s [ inl last ↦ absurd (both last more) | inr t ↦ t ]) (omega (arith, h))
              (omega (arith, k)))
      ])
  where
    both : (bit_and b 0x80 == 0) ≡ true → (bit_and b 0x80 == 0) ≡ false → ⊥
    both last more = cc (last, more)

pub mqtt_decode_var_int-Within :
    (packet : List ℕ) (pos : ℕ)
    → HasSmallFifth 4 (drop pos packet)
    → Within (pos + 1) (length packet) (mqtt_decode_var_int packet pos)
unfolding mqtt_decode_var_int
mqtt_decode_var_int-Within packet pos s = elim (Bool-cases (leb (length packet) pos)) [
  | inl e ↦ rw e tt
  | inr e ↦ rw e (
      loop-Within 4 (drop pos packet) pos 0 1 (pos + 1) (length packet) refl s (omega arith)
        (inside e))
]
  where
    inside : leb (length packet) pos ≡ false → pos + length (drop pos packet) ≤ length packet
    inside e = ground (arith, length-drop pos packet)

pub skip_packet_id-Yields :
    (packet : List ℕ) (qos pos : ℕ)
    → pos ≤ length packet
    → Yields (λ p. p ≤ length packet) (skip_packet_id packet qos pos)
unfolding skip_packet_id
skip_packet_id-Yields packet qos pos h = ground (arith, read_u16-eq-ok packet pos)

pub skip_properties-Yields :
    (packet : List ℕ) (version pos : ℕ)
    → pos ≤ length packet
    → (version ≡ 5 → HasSmallFifth 4 (drop pos packet))
    → Yields (λ p. p ≤ length packet) (skip_properties packet version pos)
unfolding skip_properties
skip_properties-Yields packet version pos h s = elim (Bool-cases (version == 5)) [
  | inr e ↦ rw e h
  | inl e ↦ rw e (ground (arith, mqtt_decode_var_int-Within packet pos (s (==→eq version 5 e))))
]
