-- ===== src/Util/Pool/Create.antt =====
-- `pool_create`: the free list that it fills.
use paum_io_t.World.{ok}
use native.Mathlib.Nat.{mod-eq_of_lt}
use paum_io_t.Common.{◌^◌, le→ltb_false, Bool}
use paum_io_t.Common.{
  ℕ, zero, suc, ◌+◌, ◌-◌, ◌*◌, ◌%◌, ◌<◌, ◌≡◌, refl, sym, ap, ◌∙◌, subst, arith, true, some, length,
  get_or, ne→==_false,
}
use native.Mathlib.Nat.{mul-mod_left, mul-lt-mul_of_pos_right}
use paum_io_t.Util.Pool.{Pool, block_list, pool_create}
use paum_io_t.Util.Pool.Blocks.{IsBlock, IsValid, IsFree}

block_list-nth : (m s n i : ℕ) → i < n → get_or (block_list m s n) i 0 ≡ m + i * s
unfolding block_list
block_list-nth m s (suc n) zero h = omega arith
block_list-nth m s (suc n) (suc i) h = block_list-nth (m + s) s n i (omega (arith, h)) ∙ omega arith
block_list-nth m s zero i h = absurd (omega (arith, h))

length-block_list : (m s n : ℕ) → length (block_list m s n) ≡ n
unfolding block_list
length-block_list m s zero = refl
length-block_list m s (suc n) = ap suc (length-block_list (m + s) s n)

-- A pool with all its blocks, in their order.
abbrev pub full : ℕ → ℕ → ℕ → (ℕ → ℕ) → Pool
full memory size num cells = record {
  memory = memory;
  block_size = size;
  num_blocks = num;
  free_count = num;
  free_list = block_list memory size num;
  cells = cells;
}

pub full-IsValid :
    (memory size num : ℕ) (cells : ℕ → ℕ)
    → 0 < memory
    → 0 < size
    → size * num < 2 ^ 64
    → IsValid (full memory size num cells)
full-IsValid memory size num cells placed positive fits = record {
  positive = positive;
  placed = placed;
  fits = fits;
  size = length-block_list memory size num;
  bounded = omega arith;
  blocks = λ i h.
      subst (IsBlock (full memory size num cells)) (sym (block_list-nth memory size num i h))
        (at i h);
  distinct = λ i j h k e. omega (
    arith,
    mul-lt-mul_of_pos_right h positive,
    block_list-nth memory size num i (omega (arith, h, k)),
    block_list-nth memory size num j k,
    e,
  );
}
  where
    at : (i : ℕ) → i < num → IsBlock (full memory size num cells) (memory + i * size)
    at i h = record {
      above = omega arith;
      below = omega (arith, mul-lt-mul_of_pos_right h positive);
      aligned = ap (λ t. t % size) offset ∙ mul-mod_left i size;
    }
      where
        offset : memory + i * size - memory ≡ i * size
        offset = omega arith

-- A pool for at least one block of at least one cell, for which the memory is granted and whose sizes
-- are below 2 ^ 64, is valid, and every block that its memory has is free.
pub pool_create-IsValid :
    (malloc_memory : ℕ → ℕ) (got_list : ℕ → Bool) (size num : ℕ) (cells : ℕ → ℕ)
    → 0 < malloc_memory (size * num)
    → got_list (8 * num) ≡ true
    → 0 < size
    → 0 < num
    → size * num < 2 ^ 64
    → 8 * num < 2 ^ 64
    → (p : Pool) × (pool_create true malloc_memory got_list cells size num ≡ ok (some p))
      × IsValid p
      × ((i : ℕ) → i < num → IsFree p (malloc_memory (size * num) + i * size))
unfolding pool_create
pool_create-IsValid malloc_memory got_list size num cells placed granted positive some_blocks fits
      list_fits =
    (
      full (malloc_memory (size * num)) size num cells,
      rw
          (
            ne→==_false size 0 (λ e. omega (arith, e, positive)),
            ne→==_false num 0 (λ e. omega (arith, e, some_blocks)),
            mod-eq_of_lt fits,
            mod-eq_of_lt list_fits,
            ne→==_false (malloc_memory (size * num)) 0 (λ e. omega (arith, e, placed)),
            granted,
            le→ltb_false (size * num) (size * num) (omega arith),
            le→ltb_false (8 * num) (8 * num) (omega arith),
          )
          refl,
      full-IsValid (malloc_memory (size * num)) size num cells placed positive fits,
      λ i h. (i, h, block_list-nth (malloc_memory (size * num)) size num i h),
    )
