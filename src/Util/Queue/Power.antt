-- ===== src/Util/Queue/Power.antt =====
-- The numbers that `is_power_of_two` accepts.
use paum_io_t.Common.{
  ℕ, zero, suc, ◌-◌, ◌/◌, ◌%◌, ◌^◌, ◌<◌, ◌≡◌, refl, sym, ap, arith, true, bit_and, ltb, ◌==◌, ◌&&◌,
  ==→eq, inl, inr, Bool-cases, ◌↔◌, subst,
}
use paum_io_t.Common.Bits.{bit_and_step}
use native.Mathlib.Nat.{pow-suc}
use paum_io_t.Util.Queue.{is_power_of_two}
use paum_io_t.Util.Queue.Create.{power-is_power_of_two}

bit_and_self : (bound x : ℕ) → x < bound → bit_and x x ≡ x
bit_and_self zero x h = absurd (omega (arith, h))
bit_and_self (suc bound) zero h = refl
bit_and_self (suc bound) (suc x) h =
    omega (arith, bit_and_step (suc x) (suc x), bit_and_self bound (suc x / 2) (omega (arith, h)))

power_of : (bound n : ℕ) → n < bound → 0 < n → bit_and n (n - 1) ≡ 0 → (k : ℕ) × (n ≡ 2 ^ k)
power_of zero n h pos e = absurd (omega (arith, h))
power_of (suc bound) n h pos e = elim (Bool-cases (n % 2 == 0)) [
  | inr f ↦ (
    0,
    let odd : n % 2 ≡ 1 = ground (arith, f) in
        let same : (n - 1) / 2 ≡ n / 2 = omega (arith, odd) in
        omega (
          arith,
          e,
          odd,
          bit_and_step n (n - 1),
          ap (bit_and (n / 2)) same,
          bit_and_self (suc (n / 2)) (n / 2) (omega arith),
        ),
  )
  | inl f ↦
      let even : n % 2 ≡ 0 = ==→eq (n % 2) 0 f in
      let half : (n - 1) / 2 ≡ n / 2 - 1 = omega (arith, even, pos) in
      let (k, power) =
        power_of bound (n / 2) (omega (arith, h, pos)) (omega (arith, even, pos))
          (omega (arith, e, even, bit_and_step n (n - 1), ap (bit_and (n / 2)) half)) in
      (suc k, omega (arith, even, power, pow-suc 2 k))
]

-- `is_power_of_two` accepts exactly the powers of two.
pub is_power_of_two_lem : (n : ℕ) → (is_power_of_two n ≡ true) ↔ ((k : ℕ) × (n ≡ 2 ^ k))
unfolding is_power_of_two
is_power_of_two_lem n = (
  λ e. power_of (suc n) n (omega arith) (facts e).0 (facts e).1,
  λ (k, e). subst (λ x. is_power_of_two x ≡ true) (sym e) (power-is_power_of_two k),
)
  where
    facts : (ltb 0 n && (bit_and n (n - 1) == 0)) ≡ true → (0 < n) × (bit_and n (n - 1) ≡ 0)
    facts e = ground arith
