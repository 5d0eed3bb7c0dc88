-- ===== src/Util/Pool/Twice.antt =====
-- A block that is given back twice.
use paum_io_t.Common.{
  ℕ, ◌+◌, ◌-◌, ◌<◌, ◌≡◌, ap, ◌∙◌, arith, some, length, length-set, get_or, set, get_or-set_self,
  get_or-set_ne,
}
use paum_io_t.Util.Pool.{Pool, alloc, free}
use paum_io_t.Util.Pool.Blocks.{IsBlock, IsValid, allocated, given_back, top, alloc-eq, free-eq}

-- In a valid pool where two blocks at least are taken, a block that is given back twice is what each
-- of the next two calls of `alloc` returns.
pub alloc-free_twice :
    (p : Pool) (b : ℕ)
    → IsValid p
    → IsBlock p b
    → p.free_count + 1 < p.num_blocks
    → ((alloc (free (free p b) b)).0 ≡ some b) × ((alloc (alloc (free (free p b) b)).1).0 ≡ some b)
alloc-free_twice p b v k h =
    rw
      (
        free-eq p b v.fits k (omega (arith, h)),
        free-eq (given_back p b) b v.fits
            record { above = k.above; below = k.below; aligned = k.aligned } h,
        alloc-eq twice (omega arith),
        alloc-eq (allocated twice (top twice)) (omega arith),
      )
      (ap some first, ap some second)
  where
    twice : Pool
    twice = given_back (given_back p b) b

    once_list : length (set p.free_list p.free_count b) ≡ p.num_blocks
    once_list = length-set p.free_list p.free_count b ∙ v.size

    first : top twice ≡ b
    first =
        unfold top in
        ap (λ t. get_or (set (set p.free_list p.free_count b) (p.free_count + 1) b) t 0) one
        ∙ get_or-set_self (set p.free_list p.free_count b) (p.free_count + 1) b 0
            (omega (arith, once_list, h))
      where
        one : p.free_count + 1 + 1 - 1 ≡ p.free_count + 1
        one = omega arith

    second : top (allocated twice (top twice)) ≡ b
    second =
        unfold top in
        ap (λ t. get_or (set (set p.free_list p.free_count b) (p.free_count + 1) b) t 0) zero_left
        ∙ get_or-set_ne (set p.free_list p.free_count b) b 0 (λ e. omega (arith, e))
        ∙ get_or-set_self p.free_list p.free_count b 0 (omega (arith, v.size, h))
      where
        zero_left : p.free_count + 1 + 1 - 1 - 1 ≡ p.free_count
        zero_left = omega arith
