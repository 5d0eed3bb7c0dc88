-- ===== src/Util/Queue.antt =====
-- The queue of common/src/queue.c, used by one thread at a time. The buffer is a list of slots of
-- `element_size` bytes: `get_element_ptr` addresses whole slots.
pub mod Order
pub mod Refine
pub mod Create
pub mod Threads
pub mod Turn
pub mod Interleave
pub mod Sequential
pub mod Race
pub mod ClearRace
pub mod Alone
pub mod Progress
pub mod Power
mod Tests
use paum_io_t.Common.{
  ℕ, ◌+◌, ◌-◌, ◌*◌, ◌/◌, ◌%◌, ◌^◌, Bool, true, false, not, ◌&&◌, ◌||◌, List, [], ◌∷◌, Option, none,
  some, get_or, set, take, replicate, ltb, leb, ◌==◌, if◌then◌else◌, bit_and,
}
use paum_io_t.Util.Codes.{Code, success, invalid_param, queue_full, queue_empty}

abbrev pub Slot : Type 0
Slot = List ℕ

-- `struct queue`
pub record Queue : Type 0 where
  pub buffer : List Slot
  pub capacity : ℕ
  pub element_size : ℕ
  pub mask : ℕ
  pub head : ℕ
  pub tail : ℕ
  pub count : ℕ

-- An addition of `size_t`, as `atomic_fetch_add` makes it.
abbrev pub add_size : ℕ → ℕ → ℕ
add_size a b = (a + b) % 2 ^ 64

unfoldable pub is_power_of_two : ℕ → Bool
is_power_of_two n = ltb 0 n && (bit_and n (n - 1) == 0)

-- The slot that `get_element_ptr` points to.
abbrev pub slot_index : Queue → ℕ → ℕ
slot_index q index = bit_and index q.mask

abbrev pub zero_slot : Queue → Slot
zero_slot q = replicate q.element_size 0

-- The first two arguments say whether the two requests for memory are granted. The buffer has as
-- many whole slots as `capacity * element_size`, a `size_t`, has room for.
unfoldable pub queue_create : Bool → Bool → ℕ → ℕ → Option Queue
unfolding is_power_of_two
queue_create got_queue got_buffer capacity element_size =
    if capacity == 0 || element_size == 0
    then none
    else if not (is_power_of_two capacity)
    then none
    else if not (got_queue && got_buffer)
    then none
    else some (record {
      buffer =
          replicate (capacity * element_size % 2 ^ 64 / element_size) (replicate element_size 0);
      capacity = capacity;
      element_size = element_size;
      mask = capacity - 1;
      head = 0;
      tail = 0;
      count = 0;
    })

-- What the queue functions allocate.
pub data Block : Type 0 where
  buffer_block queue_block : Block

-- What is passed to `free`, in this order. The buffer of a queue is never NULL.
unfoldable pub queue_destroy : Option Queue → List Block
queue_destroy none = []
queue_destroy (some q) = buffer_block ∷ queue_block ∷ []

-- With one thread the exchange in the loop succeeds, or fails for no reason and is tried again.
unfoldable pub enqueue : Queue → List ℕ → Code × Queue
enqueue q element = if leb q.capacity q.count then (queue_full, q) else (
  success,
  record q {
    buffer = set q.buffer (slot_index q q.head) (take q.element_size element);
    count = q.count + 1;
    head = add_size q.head 1;
  },
)

-- The option is what is copied to `element`.
unfoldable pub dequeue : Queue → Code × Option Slot × Queue
dequeue q = if q.count == 0 then (queue_empty, none, q) else (
  success,
  some (get_or q.buffer (slot_index q q.tail) []),
  record q {
    buffer = set q.buffer (slot_index q q.tail) (zero_slot q);
    count = q.count - 1;
    tail = add_size q.tail 1;
  },
)

unfoldable pub peek : Queue → Code × Option Slot
peek q =
    if q.count == 0
    then (queue_empty, none)
    else (success, some (get_or q.buffer (slot_index q q.tail) []))

unfoldable pub clear : Queue → Queue
clear q = record q { buffer = replicate q.capacity (zero_slot q); head = 0; tail = 0; count = 0 }

-- The functions of the interface, on a queue and an element that may be NULL. The Boolean of
-- `queue_dequeue` and `queue_peek` says whether `element` is not NULL.
unfoldable pub queue_enqueue : Option Queue → Option (List ℕ) → Code × Option Queue
unfolding enqueue
queue_enqueue none element = (invalid_param, none)
queue_enqueue (some q) none = (invalid_param, some q)
queue_enqueue (some q) (some element) = let (c, q') = enqueue q element in (c, some q')

unfoldable pub queue_dequeue : Option Queue → Bool → Code × Option Slot × Option Queue
unfolding dequeue
queue_dequeue none element = (invalid_param, none, none)
queue_dequeue (some q) false = (invalid_param, none, some q)
queue_dequeue (some q) true = let (c, out, q') = dequeue q in (c, out, some q')

unfoldable pub queue_peek : Option Queue → Bool → Code × Option Slot
unfolding peek
queue_peek none element = (invalid_param, none)
queue_peek (some q) false = (invalid_param, none)
queue_peek (some q) true = peek q

unfoldable pub queue_is_empty : Option Queue → Bool
queue_is_empty none = true
queue_is_empty (some q) = q.count == 0

unfoldable pub queue_is_full : Option Queue → Bool
queue_is_full none = false
queue_is_full (some q) = leb q.capacity q.count

unfoldable pub queue_size : Option Queue → ℕ
queue_size none = 0
queue_size (some q) = q.count

unfoldable pub queue_capacity : Option Queue → ℕ
queue_capacity none = 0
queue_capacity (some q) = q.capacity

unfoldable pub queue_clear : Option Queue → Option Queue
unfolding clear
queue_clear none = none
queue_clear (some q) = some (clear q)
