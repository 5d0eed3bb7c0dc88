-- ===== src/Common/Bits.antt =====
-- Masks and shifts as arithmetic: what `&` and `|` do to the fields of a word.
use Prim.Native.Nat.{
  ℕ, zero, suc, ◌+◌, ◌-◌, ◌*◌, ◌/◌, ◌%◌, ◌^◌, ◌≤◌, ◌<◌, min, max, bit_and, bit_or, digits,
  bit_and-bitwise, bit_or-bitwise,
}
use mathlib.Core.Path.{◌≡◌, refl, ap, ap₂, ◌∙◌}
use mathlib.Core.Bool.{Bool, true, ◌&&◌}
use native.Mathlib.Omega.{arith}
use native.Mathlib.Nat.{
  pow-suc, mul_assoc, mod-lt, mod-eq_of_lt, div-add-mod, add-mul-mod_self_right,
}
use paum_io_t.Common.Tests.{◌==◌, ==→eq}

pub holds_below : (ℕ → Bool) → ℕ → Bool
holds_below test zero = true
holds_below test (suc n) = holds_below test n && test n

holds_at : (test : ℕ → Bool) (x n : ℕ) → holds_below test n ≡ true → x < n → test x ≡ true
unfolding holds_below
holds_at test x zero all h = absurd (omega (arith, h))
holds_at test x (suc n) all h = ground (arith, holds_at test x n)

-- The top bit of a byte, tested and set.
top_table : holds_below (λ x. bit_and x 0x80 == x / 128 * 128) 256 ≡ true
unfolding holds_below
top_table = refl

pub top_bit : (x : ℕ) → x < 256 → bit_and x 0x80 ≡ x / 128 * 128
top_bit x h = ==→eq _ _ (holds_at _ x 256 top_table h)

set_top_table : holds_below (λ x. bit_or x 0x80 == x + 128) 128 ≡ true
unfolding holds_below
set_top_table = refl

pub set_top_bit : (x : ℕ) → x < 128 → bit_or x 0x80 ≡ x + 128
set_top_bit x h = ==→eq _ _ (holds_at _ x 128 set_top_table h)

-- What the operations stand for is a recursion on digits with fuel. Fuel that is at least the number
-- does as much as the number itself; `k` bounds the recursion.
module _ (base : ℕ → ℕ) (op : ℕ → ℕ → ℕ) where
  enough_digits :
      (k fuel x y : ℕ) → fuel ≤ k → x ≤ fuel → digits base op fuel x y ≡ digits base op x x y
  enough_digits k zero zero y le h = refl
  enough_digits k (suc fuel) zero y le h = refl
  enough_digits k zero (suc x) y le h = absurd (omega (arith, h))
  enough_digits zero (suc fuel) (suc x) y le h = absurd (omega (arith, le))
  enough_digits (suc k) (suc fuel) (suc x) y le h =
      let half : ℕ = suc x / 2 in
      omega (
        arith,
        enough_digits k fuel half (y / 2) (omega (arith, le)) (omega (arith, h)),
        enough_digits k x half (y / 2) (omega (arith, le, h)) (omega arith),
      )

  half_digits :
      (x y : ℕ)
      → digits base op x (suc x / 2) (y / 2) ≡ digits base op (suc x / 2) (suc x / 2) (y / 2)
  half_digits x y = enough_digits x x (suc x / 2) (y / 2) (omega arith) (omega arith)

-- The operations on the lowest digit and on the digits above it.
pub bit_and_step : (x y : ℕ) → bit_and x y ≡ min (x % 2) (y % 2) + 2 * bit_and (x / 2) (y / 2)
bit_and_step zero y = omega (arith, bit_and-bitwise 0 (y / 2), bit_and-bitwise 0 y)
bit_and_step (suc x) y =
    let above : ℕ = suc x / 2 in
    omega (
      arith,
      half_digits (λ c. zero) min x y,
      bit_and-bitwise above (y / 2),
      bit_and-bitwise (suc x) y,
    )

pub bit_or_step : (x y : ℕ) → bit_or x y ≡ max (x % 2) (y % 2) + 2 * bit_or (x / 2) (y / 2)
bit_or_step zero y = omega (arith, bit_or-bitwise 0 (y / 2), bit_or-bitwise 0 y)
bit_or_step (suc x) y =
    let above : ℕ = suc x / 2 in
    omega
      (arith, half_digits (λ c. c) max x y, bit_or-bitwise above (y / 2), bit_or-bitwise (suc x) y)

zeros_below : (bound x : ℕ) → x < bound → (bit_and x 0 ≡ 0) × (bit_or x 0 ≡ x)
zeros_below zero x h = absurd (omega (arith, h))
zeros_below (suc bound) zero h = (refl, refl)
zeros_below (suc bound) (suc x) h =
    let (nothing, itself) = zeros_below bound (suc x / 2) (omega (arith, h)) in
    (omega (arith, nothing, bit_and_step (suc x) 0), omega (arith, itself, bit_or_step (suc x) 0))

pub bit_and-zero : (x : ℕ) → bit_and x 0 ≡ 0
bit_and-zero x = (zeros_below (suc x) x (omega arith)).0

pub bit_or-zero : (x : ℕ) → bit_or x 0 ≡ x
bit_or-zero x = (zeros_below (suc x) x (omega arith)).1

pub pow_suc : (k : ℕ) → 2 ^ suc k ≡ 2 ^ k * 2
pow_suc k = pow-suc 2 k

pub pow_pos : (k : ℕ) → 0 < 2 ^ k
pow_pos zero = omega arith
pow_pos (suc k) = rw pow_suc (omega (arith, pow_pos k))

pub pow_le : (a d : ℕ) → 2 ^ a ≤ 2 ^ (a + d)
pow_le a zero = omega (arith, ap (λ t. 2 ^ t) same)
  where
    same : a + 0 ≡ a
    same = omega arith
pow_le a (suc d) = omega (arith, pow_le a d, pow_suc (a + d), ap (λ t. 2 ^ t) same)
  where
    same : a + suc d ≡ suc (a + d)
    same = omega arith

pub pow_add : (a b c : ℕ) → a + b ≡ c → 2 ^ a * 2 ^ b ≡ 2 ^ c
pow_add a zero c e = omega (arith, ap (λ t. 2 ^ t) same)
  where
    same : a ≡ c
    same = omega (arith, e)
pow_add a (suc b) c e =
    ap (λ t. 2 ^ a * t) (pow_suc b)
    ∙ omega (
      arith,
      mul_assoc (2 ^ a) (2 ^ b) 2,
      pow_add a b (a + b) refl,
      pow_suc (a + b),
      ap (λ t. 2 ^ t) turn,
    )
  where
    turn : suc (a + b) ≡ c
    turn = omega (arith, e)

mod_unique : (m q r : ℕ) → r < m → (r + q * m) % m ≡ r
mod_unique m q r h = add-mul-mod_self_right r q m ∙ mod-eq_of_lt h

mod_double : (a p : ℕ) → 0 < p → a % (p * 2) ≡ a / 2 % p * 2 + a % 2
mod_double a p h =
    ap (λ t. t % (p * 2)) split
    ∙ mod_unique (p * 2) (a / 2 / p) (a / 2 % p * 2 + a % 2) (omega (arith, mod-lt (a / 2) h))
  where
    split : a ≡ a / 2 % p * 2 + a % 2 + a / 2 / p * (p * 2)
    split = omega (arith, div-add-mod (a / 2) p, div-add-mod a 2)

-- A mask of `k` ones keeps the low `k` bits.
pub bit_and_mask : (k a : ℕ) → bit_and a (2 ^ k - 1) ≡ a % 2 ^ k
bit_and_mask zero a = omega (arith, bit_and-zero a)
bit_and_mask (suc k) a =
    bit_and_step a (2 ^ suc k - 1)
    ∙ ap₂ (λ x y. min (a % 2) y + 2 * bit_and (a / 2) x) half odd
    ∙ ap (λ x. min (a % 2) 1 + 2 * x) (bit_and_mask k (a / 2))
    ∙ omega (arith, mod_double a (2 ^ k) (pow_pos k), ap (λ (t : ℕ). a % t) (pow_suc k))
  where
    half : (2 ^ suc k - 1) / 2 ≡ 2 ^ k - 1
    half = omega (arith, pow_suc k, pow_pos k)

    odd : (2 ^ suc k - 1) % 2 ≡ 1
    odd = omega (arith, pow_suc k, pow_pos k)

-- `hi << k | lo`, where `lo` has `k` bits.
pub bit_or_shift : (k hi lo : ℕ) → lo < 2 ^ k → bit_or (hi * 2 ^ k) lo ≡ hi * 2 ^ k + lo
bit_or_shift zero hi zero h = bit_or-zero (hi * 1) ∙ omega arith
bit_or_shift zero hi (suc lo) h = absurd (omega arith)
bit_or_shift (suc k) hi lo h =
    bit_or_step (hi * 2 ^ suc k) lo
    ∙ ap₂ (λ x y. max y (lo % 2) + 2 * bit_or x (lo / 2)) half even
    ∙ ap (λ x. max 0 (lo % 2) + 2 * x) (bit_or_shift k hi (lo / 2) (omega (arith, pow_suc k)))
    ∙ omega (arith, ap (λ (t : ℕ). hi * t) (pow_suc k))
  where
    half : hi * 2 ^ suc k / 2 ≡ hi * 2 ^ k
    half = omega (arith, ap (λ (t : ℕ). hi * t) (pow_suc k))

    even : hi * 2 ^ suc k % 2 ≡ 0
    even = omega (arith, ap (λ (t : ℕ). hi * t) (pow_suc k))

-- The masks that the code writes.
pub low_seven : (a : ℕ) → bit_and a 0x7f ≡ a % 128
low_seven a = bit_and_mask 7 a

pub low_byte : (a : ℕ) → bit_and a 0xff ≡ a % 256
low_byte a = bit_and_mask 8 a

pub low_nibble : (a : ℕ) → bit_and a 0x0f ≡ a % 16
low_nibble a = bit_and_mask 4 a

pub low_two : (a : ℕ) → bit_and a 0x03 ≡ a % 4
low_two a = bit_and_mask 2 a

pub low_one : (a : ℕ) → bit_and a 0x01 ≡ a % 2
low_one a = bit_and_mask 1 a

-- `hi << 8 | lo` at bytes.
pub join_bytes : (hi lo : ℕ) → lo < 256 → bit_or (hi * 256) lo ≡ hi * 256 + lo
join_bytes hi lo h = bit_or_shift 8 hi lo h
