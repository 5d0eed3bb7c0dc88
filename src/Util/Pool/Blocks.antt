-- ===== src/Util/Pool/Blocks.antt =====
-- Which blocks the pool holds, and what taking and giving back a block does.
use native.Mathlib.Nat.{mod-eq_of_lt}
use paum_io_t.Common.{◌^◌}
use paum_io_t.Common.{
  ℕ, ◌+◌, ◌-◌, ◌*◌, ◌%◌, ◌≤◌, ◌<◌, ◌≡◌, ◌≢◌, refl, sym, ap, ◌∙◌, subst, arith, none, some, length,
  length-set, get_or, set, get_or-set_self, get_or-set_ne, dec_lt, ℕ_discrete, eq→==, ne→==_false,
  lt→ltb, le→leb, le→ltb_false, lt→leb_false,
}
use paum_io_t.Util.Pool.{Pool, alloc, free, zero_cells}

-- The address of one of `num` blocks of `size` cells from `memory` on.
pub record IsBlockAt (memory size num b : ℕ) : Type 0 where
  pub above : memory ≤ b
  pub below : b < memory + size * num
  pub aligned : (b - memory) % size ≡ 0

abbrev pub IsBlock : Pool → ℕ → Type 0
IsBlock p b = IsBlockAt p.memory p.block_size p.num_blocks b

-- The part of the free list that counts holds blocks, each at most once.
pub record IsValid (p : Pool) : Type 0 where
  pub positive : 0 < p.block_size
  pub placed : 0 < p.memory
  pub fits : p.block_size * p.num_blocks < 2 ^ 64
  pub size : length p.free_list ≡ p.num_blocks
  pub bounded : p.free_count ≤ p.num_blocks
  pub blocks : (i : ℕ) → i < p.free_count → IsBlock p (get_or p.free_list i 0)
  pub distinct :
      (i j : ℕ) → i < j → j < p.free_count → get_or p.free_list i 0 ≢ get_or p.free_list j 0

-- The block can be taken.
abbrev pub IsFree : Pool → ℕ → Type 0
IsFree p b = (i : ℕ) × (i < p.free_count) × (get_or p.free_list i 0 ≡ b)

-- What `alloc` and `free` leave when they take or give back a block.
abbrev pub allocated : Pool → ℕ → Pool
allocated p b = record p {
  free_count = p.free_count - 1;
  cells = zero_cells p.cells b p.block_size;
}

abbrev pub given_back : Pool → ℕ → Pool
given_back p b = record p {
  free_list = set p.free_list p.free_count b;
  free_count = p.free_count + 1;
}

unfoldable pub top : Pool → ℕ
top p = get_or p.free_list (p.free_count - 1) 0

pub alloc-eq : (p : Pool) → 0 < p.free_count → alloc p ≡ (some (top p), allocated p (top p))
unfolding alloc top
alloc-eq p h = rw (ne→==_false p.free_count 0 (λ e. omega (arith, e, h))) refl

-- While a block of a valid pool is free, `alloc` returns a block that is free and filled with zeros; afterwards the
-- block is not free, every other free block still is, and the pool is valid.
pub alloc-IsValid :
    (p : Pool)
    → IsValid p
    → 0 < p.free_count
    → (b : ℕ) × ((alloc p).0 ≡ some b)
      × IsFree p b
      × ¬ (IsFree (alloc p).1 b)
      × ((c : ℕ) → c ≢ b → IsFree p c → IsFree (alloc p).1 c)
      × ((n : ℕ) → n < p.block_size → (alloc p).1.cells (b + n) ≡ 0)
      × IsValid (alloc p).1
unfolding top
alloc-IsValid p v h = rw (alloc-eq p h) (
  top p,
  refl,
  (p.free_count - 1, omega (arith, h), refl),
  (λ (i, k, e). v.distinct i (p.free_count - 1) k (omega (arith, h)) e),
  (λ c ne (i, k, e). (i, elsewhere c ne i k e, e)),
  (λ n k. ground arith),
  record {
    positive = v.positive;
    placed = v.placed;
    fits = v.fits;
    size = v.size;
    bounded = omega (arith, v.bounded);
    blocks = λ i k. v.blocks i (omega (arith, k));
    distinct = λ i j k l. v.distinct i j k (omega (arith, l));
  },
)
  where
    elsewhere :
        (c : ℕ)
        → c ≢ get_or p.free_list (p.free_count - 1) 0
        → (i : ℕ) → i < p.free_count
        → get_or p.free_list i 0 ≡ c
        → i < p.free_count - 1
    elsewhere c ne i k e = elim (dec_lt i (p.free_count - 1)) [
      | yes l ↦ l
      | no l ↦ absurd (ne (sym e ∙ ap (λ t. get_or p.free_list t 0) (last l)))
    ]
      where
        last : ¬ (i < p.free_count - 1) → i ≡ p.free_count - 1
        last l = omega (arith, l, k)

-- When no block is free, `alloc` returns NULL and changes nothing.
pub alloc-empty : (p : Pool) → p.free_count ≡ 0 → alloc p ≡ (none, p)
unfolding alloc
alloc-empty p e = rw (eq→== p.free_count 0 e) refl

pub free-eq :
    (p : Pool) (b : ℕ)
    → p.block_size * p.num_blocks < 2 ^ 64
    → IsBlock p b
    → p.free_count < p.num_blocks
    → free p b ≡ given_back p b
unfolding free
free-eq p b fits k h =
    rw
      (
        mod-eq_of_lt fits,
        le→ltb_false b p.memory k.above,
        lt→leb_false (p.memory + p.block_size * p.num_blocks) b k.below,
        eq→== ((b - p.memory) % p.block_size) 0 k.aligned,
        lt→leb_false p.num_blocks p.free_count h,
      )
      refl

-- In a valid pool where a block is taken, a block that is not free is free once it is given back, the
-- free ones stay free, and the pool is valid.
pub free-IsValid :
    (p : Pool) (b : ℕ)
    → IsValid p
    → IsBlock p b
    → ¬ (IsFree p b)
    → p.free_count < p.num_blocks
    → IsFree (free p b) b × ((c : ℕ) → IsFree p c → IsFree (free p b) c) × IsValid (free p b)
free-IsValid p b v k new h = rw (free-eq p b v.fits k h) (
  (p.free_count, omega arith, here),
  (λ c (i, l, e). (i, omega (arith, l), old i l ∙ e)),
  record {
    positive = v.positive;
    placed = v.placed;
    fits = v.fits;
    size = length-set p.free_list p.free_count b ∙ v.size;
    bounded = omega (arith, h);
    blocks = every;
    distinct = apart;
  },
)
  where
    here : get_or (set p.free_list p.free_count b) p.free_count 0 ≡ b
    here = get_or-set_self p.free_list p.free_count b 0 (omega (arith, v.size, h))

    old :
        (i : ℕ)
        → i < p.free_count
        → get_or (set p.free_list p.free_count b) i 0 ≡ get_or p.free_list i 0
    old i l = get_or-set_ne p.free_list b 0 (λ e. omega (arith, e, l))

    last : (i : ℕ) → i < p.free_count + 1 → ¬ (i < p.free_count) → i ≡ p.free_count
    last i l n = omega (arith, l, n)

    added :
        (i : ℕ)
        → i < p.free_count + 1
        → ¬ (i < p.free_count)
        → get_or (set p.free_list p.free_count b) i 0 ≡ b
    added i l n = ap (λ t. get_or (set p.free_list p.free_count b) t 0) (last i l n) ∙ here

    every : (i : ℕ) → i < p.free_count + 1 → IsBlock p (get_or (set p.free_list p.free_count b) i 0)
    every i l = elim (dec_lt i p.free_count) [
      | yes m ↦ subst (IsBlock p) (sym (old i m)) (v.blocks i m)
      | no m ↦ subst (IsBlock p) (sym (added i l m)) k
    ]

    apart :
        (i j : ℕ)
        → i < j
        → j < p.free_count + 1
        → get_or (set p.free_list p.free_count b) i 0 ≢ get_or (set p.free_list p.free_count b) j 0
    apart i j m l e =
        let inside : i < p.free_count = omega (arith, m, l) in
        elim (dec_lt j p.free_count) [
          | yes n ↦ v.distinct i j m n (sym (old i inside) ∙ e ∙ old j n)
          | no n ↦ new (i, inside, sym (old i inside) ∙ e ∙ added j l n)
        ]

-- In a valid pool where a block is taken, giving a block back and taking one gives the same block,
-- and leaves as many as there were.
pub alloc-free :
    (p : Pool) (b : ℕ)
    → IsValid p
    → IsBlock p b
    → p.free_count < p.num_blocks
    → ((alloc (free p b)).0 ≡ some b) × ((alloc (free p b)).1.free_count ≡ p.free_count)
alloc-free p b v k h =
    rw (free-eq p b v.fits k h, alloc-eq (given_back p b) (omega arith)) (ap some same, omega arith)
  where
    one : p.free_count + 1 - 1 ≡ p.free_count
    one = omega arith

    same : top (given_back p b) ≡ b
    same =
        unfold top in
        ap (λ t. get_or (set p.free_list p.free_count b) t 0) one
        ∙ get_or-set_self p.free_list p.free_count b 0 (omega (arith, v.size, h))

-- An address that is not a block's, and any address while every block is free, is passed over.
pub free-foreign :
    (p : Pool) (b : ℕ)
    → p.block_size * p.num_blocks < 2 ^ 64
    → ¬ (IsBlock p b × (p.free_count < p.num_blocks))
    → free p b ≡ p
unfolding free
free-foreign p b fits h = rw (mod-eq_of_lt fits) (elim (dec_lt b p.memory) [
  | yes below ↦ rw (lt→ltb b p.memory below) refl
  | no above ↦ elim (dec_lt b (p.memory + p.block_size * p.num_blocks)) [
    | no beyond ↦
        rw
          (
            le→ltb_false b p.memory (omega (arith, above)),
            le→leb (p.memory + p.block_size * p.num_blocks) b (omega (arith, beyond)),
          )
          refl
    | yes inside ↦
        rw
          (
            le→ltb_false b p.memory (omega (arith, above)),
            lt→leb_false (p.memory + p.block_size * p.num_blocks) b inside,
          )
          (elim (ℕ_discrete ((b - p.memory) % p.block_size) 0) [
            | no askew ↦ rw (ne→==_false ((b - p.memory) % p.block_size) 0 askew) refl
            | yes aligned ↦
                rw
                  (
                    eq→== ((b - p.memory) % p.block_size) 0 aligned,
                    le→leb p.num_blocks p.free_count (full above inside aligned),
                  )
                  refl
          ])
  ]
])
  where
    full :
        ¬ (b < p.memory)
        → b < p.memory + p.block_size * p.num_blocks
        → (b - p.memory) % p.block_size ≡ 0
        → p.num_blocks ≤ p.free_count
    full above inside aligned = elim (dec_lt p.free_count p.num_blocks) [
      | no f ↦ omega (arith, f)
      | yes f ↦
          absurd (h (record { above = omega (arith, above); below = inside; aligned = aligned }, f))
    ]
