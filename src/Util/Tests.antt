-- ===== src/Util/Tests.antt =====
-- The theorems on the queue and the memory pool at concrete queues and pools.
use paum_io_t.Common.{
  ℕ, zero, suc, ◌+◌, ◌^◌, ◌<◌, ◌≡◌, ◌≢◌, refl, arith, true, get_or, List, [], ◌∷◌, some,
}
use paum_io_t.Util.Queue.{Queue, queue_create}
use paum_io_t.Util.Queue.Order.{IsValid as IsValidQueue, contents}
use paum_io_t.Util.Queue.Threads.{Call, call_enqueue, call_dequeue, call_peek}
use paum_io_t.Util.Queue.Refine.{answers, fifo_answers, answers-fifo_answers}
use paum_io_t.Util.Queue.Create.{queue_create-IsValid}
use paum_io_t.Util.Pool.{Pool, alloc, free}
use paum_io_t.Util.Pool.Blocks.{IsBlock, IsFree, IsValid, alloc-IsValid}
use paum_io_t.Util.Pool.Twice.{alloc-free_twice}
use paum_io_t.Util.Pool.Create.{full}

-- Two slots of one byte, with one element, where the tail is about to start over.
abbrev turning : Queue
turning = record {
  buffer = (0 ∷ []) ∷ (7 ∷ []) ∷ [];
  capacity = 2;
  element_size = 1;
  mask = 1;
  head = 0;
  tail = 18446744073709551615;
  count = 1;
}

turning-IsValidQueue : IsValidQueue 1 turning
turning-IsValidQueue = record {
  exponent = omega arith;
  power = refl;
  masked = refl;
  room = refl;
  bounded = omega arith;
  start = omega arith;
  stop = refl;
}

abbrev calls : List Call
calls =
    call_enqueue (8 ∷ [])
    ∷ call_enqueue (9 ∷ [])
    ∷ call_dequeue
    ∷ call_peek
    ∷ call_dequeue
    ∷ call_dequeue
    ∷ []

answers-fifo_answers_example : answers calls turning ≡ fifo_answers 2 1 calls (contents turning)
answers-fifo_answers_example = answers-fifo_answers 1 turning calls turning-IsValidQueue

queue_create-IsValid_example :
    (q : Queue) × (queue_create true true (2 ^ 3) 4 ≡ some q) × IsValidQueue 3 q × (contents q ≡ [])
queue_create-IsValid_example = queue_create-IsValid 3 4 (omega arith) (omega arith) (omega arith)

-- Two blocks of eight cells, the second one taken.
abbrev half : Pool
half = record {
  memory = 100;
  block_size = 8;
  num_blocks = 2;
  free_count = 1;
  free_list = 100 ∷ 108 ∷ [];
  cells = λ address. 5;
}

at_100 : IsBlock half 100
at_100 = record { above = omega arith; below = omega arith; aligned = refl }

at_108 : IsBlock half 108
at_108 = record { above = omega arith; below = omega arith; aligned = refl }

half-IsValid : IsValid half
half-IsValid = record {
  positive = omega arith;
  placed = omega arith;
  fits = omega arith;
  size = refl;
  bounded = omega arith;
  blocks = λ i h. first i h;
  distinct = λ i j h k. absurd (omega (arith, h, k));
}
  where
    first : (i : ℕ) → i < 1 → IsBlock half (get_or (100 ∷ 108 ∷ []) i 0)
    first zero h = at_100
    first (suc i) h = absurd (omega (arith, h))

taken_108 : ¬ (IsFree half 108)
taken_108 (zero, h, e) = absurd (omega (arith, e))
taken_108 (suc i, h, e) = absurd (omega (arith, h))

alloc-IsValid_example :
    (b : ℕ) × ((alloc half).0 ≡ some b)
    × IsFree half b
    × ¬ (IsFree (alloc half).1 b)
    × ((c : ℕ) → c ≢ b → IsFree half c → IsFree (alloc half).1 c)
    × ((n : ℕ) → n < 8 → (alloc half).1.cells (b + n) ≡ 0)
    × IsValid (alloc half).1
alloc-IsValid_example = alloc-IsValid half half-IsValid (omega arith)

not_109 : ¬ (IsBlock half 109 × (1 < 2))
not_109 (b, h) = absurd (omega (arith, b.aligned))

-- Both blocks taken.
abbrev used : Pool
used = record half { free_count = 0 }

used-IsValid : IsValid used
used-IsValid = record {
  positive = omega arith;
  placed = omega arith;
  fits = omega arith;
  size = refl;
  bounded = omega arith;
  blocks = λ i h. absurd (omega (arith, h));
  distinct = λ i j h k. absurd (omega (arith, h, k));
}

alloc-free_twice_example :
    ((alloc (free (free used 108) 108)).0 ≡ some 108)
    × ((alloc (alloc (free (free used 108) 108)).1).0 ≡ some 108)
alloc-free_twice_example =
    alloc-free_twice used 108 used-IsValid
      record { above = omega arith; below = omega arith; aligned = refl } (omega arith)

-- Both blocks are taken, and the first one taken is given back.
abbrev two_blocks : Pool
two_blocks = full 100 8 2 (λ a. 5)

abbrev both_taken : Pool
both_taken = (alloc (alloc two_blocks).1).1
