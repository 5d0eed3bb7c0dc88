-- ===== src/Util/Pool.antt =====
-- The memory pool of common/src/memory_pool.c. Addresses are numbers, and 0 is NULL; `cells` is what
-- the memory holds.
pub mod Blocks
pub mod Create
pub mod Twice
pub mod Leases
use paum_io_t.World.{Result, ok, fault}
use paum_io_t.Common.{◌^◌}
use paum_io_t.Common.{
  ℕ, zero, suc, ◌+◌, ◌-◌, ◌*◌, ◌%◌, Bool, not, ◌&&◌, ◌||◌, List, [], ◌∷◌, Option, none, some,
  get_or, set, ltb, leb, ◌==◌, if◌then◌else◌,
}

-- `struct memory_pool`, and the memory that it points into.
pub record Pool : Type 0 where
  pub memory : ℕ
  pub block_size : ℕ
  pub num_blocks : ℕ
  pub free_count : ℕ
  pub free_list : List ℕ
  pub cells : ℕ → ℕ

-- The loop that fills the free list with the blocks from `block_ptr` on.
unfoldable pub block_list : ℕ → ℕ → ℕ → List ℕ
block_list block_ptr block_size zero = []
block_list block_ptr block_size (suc n) =
    block_ptr ∷ block_list (block_ptr + block_size) block_size n

-- What the pool functions allocate.
pub data Block : Type 0 where
  list_block memory_block pool_block : Block

-- What is passed to `free`, in this order. The free list of a pool is never NULL.
unfoldable pub pool_destroy : Option Pool → List Block
pool_destroy none = []
pool_destroy (some p) =
    list_block ∷ (if p.memory == 0 then pool_block ∷ [] else memory_block ∷ pool_block ∷ [])

-- What the requests for memory return: whether the structure is granted, the address of a block of so
-- many bytes for the memory, 0 if it is not granted, and whether one for the free list is. A pointer
-- has 8 bytes, and the sizes are of type `size_t`. If one starts over at 2 ^ 64, the loop leaves the
-- memory or the free list that it has, which is a fault.
unfoldable pub pool_create : Bool → (ℕ → ℕ) → (ℕ → Bool) → (ℕ → ℕ) → ℕ → ℕ → Result (Option Pool)
unfolding block_list
pool_create got_pool malloc_memory got_list cells block_size num_blocks =
    let memory = malloc_memory (block_size * num_blocks % 2 ^ 64) in
    if block_size == 0 || num_blocks == 0
    then ok none
    else if not got_pool || memory == 0 || not (got_list (8 * num_blocks % 2 ^ 64))
    then ok none
    else if ltb (block_size * num_blocks % 2 ^ 64) (block_size * num_blocks)
        || ltb (8 * num_blocks % 2 ^ 64) (8 * num_blocks)
    then fault
    else ok (
        some (record {
          memory = memory;
          block_size = block_size;
          num_blocks = num_blocks;
          free_count = num_blocks;
          free_list = block_list memory block_size num_blocks;
          cells = cells;
        }))

-- `memset(block, 0, n)`
abbrev pub zero_cells : (ℕ → ℕ) → ℕ → ℕ → ℕ → ℕ
zero_cells cells block n address =
    if leb block address && ltb address (block + n) then 0 else cells address

-- `none` is NULL.
unfoldable pub alloc : Pool → Option ℕ × Pool
alloc p =
    if p.free_count == 0
    then (none, p)
    else let block = get_or p.free_list (p.free_count - 1) 0 in
      (
        some block,
        record p { free_count = p.free_count - 1; cells = zero_cells p.cells block p.block_size },
      )

-- The pointer is not NULL.
unfoldable pub free : Pool → ℕ → Pool
free p block_ptr =
    let memory_end = p.memory + p.block_size * p.num_blocks % 2 ^ 64 in
    if ltb block_ptr p.memory || leb memory_end block_ptr
    then p
    else if not ((block_ptr - p.memory) % p.block_size == 0)
    then p
    else if leb p.num_blocks p.free_count
    then p
    else record p {
      free_list = set p.free_list p.free_count block_ptr;
      free_count = p.free_count + 1;
    }

unfoldable pub reset : Pool → Pool
unfolding block_list
reset p = record p {
  free_count = p.num_blocks;
  free_list = block_list p.memory p.block_size p.num_blocks;
}

-- The functions of the interface, on a pool that may be NULL.
unfoldable pub pool_alloc : Option Pool → Option ℕ × Option Pool
unfolding alloc
pool_alloc none = (none, none)
pool_alloc (some p) = let (block, p') = alloc p in (block, some p')

unfoldable pub pool_free : Option Pool → ℕ → Option Pool
unfolding free
pool_free none ptr = none
pool_free (some p) ptr = if ptr == 0 then some p else some (free p ptr)

unfoldable pub pool_available : Option Pool → ℕ
pool_available none = 0
pool_available (some p) = p.free_count

unfoldable pub pool_allocated : Option Pool → ℕ
pool_allocated none = 0
pool_allocated (some p) = p.num_blocks - p.free_count

unfoldable pub pool_capacity : Option Pool → ℕ
pool_capacity none = 0
pool_capacity (some p) = p.num_blocks

unfoldable pub pool_block_size : Option Pool → ℕ
pool_block_size none = 0
pool_block_size (some p) = p.block_size

unfoldable pub pool_reset : Option Pool → Option Pool
unfolding reset
pool_reset none = none
pool_reset (some p) = some (reset p)
