-- ===== src/Util/Queue/Threads.antt =====
-- The queue of common/src/queue.c, used by several threads: `queue_enqueue`, `queue_dequeue`,
-- `queue_peek` and `queue_clear` as the sequence of their atomic operations. A copy of an element, and
-- a `memset`, are one step each.
use paum_io_t.Common.{
  ℕ, zero, suc, ◌+◌, ◌-◌, ◌%◌, ◌^◌, Bool, false, not, ◌&&◌, List, ◌∷◌, ◌++◌, [], Option, none, some,
  get_or, set, take, replicate, leb, ◌==◌, if◌then◌else◌,
}
use paum_io_t.Util.Codes.{Code, success, queue_full, queue_empty}
use paum_io_t.Util.Queue.{Slot, Queue, add_size, slot_index, zero_slot}

-- Where a thread stands: what it does next, with the local variables that it needs for it.
pub data Thread : Type 0 where
  idle : Thread
  -- `atomic_load(&queue->count)` of `queue_enqueue`, for an element.
  enqueue_loads : Slot → Thread
  -- The exchange of its loop, for the value of `expected`.
  enqueue_exchanges : Slot → ℕ → Thread
  -- `atomic_fetch_add(&queue->head, 1)`
  enqueue_takes : Slot → Thread
  -- `memcpy(dest, element, queue->element_size)`, for the value of `head`.
  enqueue_copies : Slot → ℕ → Thread
  -- The same of `queue_dequeue`.
  dequeue_loads : Thread
  dequeue_exchanges : ℕ → Thread
  dequeue_takes : Thread
  dequeue_copies : ℕ → Thread
  -- The `memset` of the slot that was copied.
  dequeue_zeroes : ℕ → Slot → Thread
  -- `atomic_load(&queue->count)` of `queue_peek`, its `atomic_load(&queue->tail)`, and its `memcpy`.
  peek_loads : Thread
  peek_reads : Thread
  peek_copies : ℕ → Thread
  -- The stores of `queue_clear`, and its `memset`.
  clear_stores_head : Thread
  clear_stores_tail : Thread
  clear_stores_count : Thread
  clear_zeroes : Thread
  -- The result, and what was copied to `element`.
  returned : Code → Option Slot → Thread
  -- `queue_clear` has returned.
  cleared : Thread

-- `expected - 1` of a `size_t`.
abbrev pub less_one : ℕ → ℕ
less_one n = (n + (2 ^ 64 - 1)) % 2 ^ 64

-- One step of `queue_clear`.
abbrev pub clear_step : Thread → Queue → Thread × Queue
clear_step clear_stores_head q = (clear_stores_tail, record q { head = 0 })
clear_step clear_stores_tail q = (clear_stores_count, record q { tail = 0 })
clear_step clear_stores_count q = (clear_zeroes, record q { count = 0 })
clear_step clear_zeroes q = (cleared, record q { buffer = replicate q.capacity (zero_slot q) })
clear_step t q = (t, q)

-- One step of a thread. The Boolean says whether `atomic_compare_exchange_weak`, if it is the step,
-- fails for no reason.
unfoldable pub step : Bool → Thread → Queue → Thread × Queue
step spurious idle q = (idle, q)
step spurious (enqueue_loads element) q =
    if leb q.capacity q.count
    then (returned queue_full none, q)
    else (enqueue_exchanges element q.count, q)
step spurious (enqueue_exchanges element expected) q =
    if q.count == expected && not spurious
    then (enqueue_takes element, record q { count = add_size expected 1 })
    else if leb q.capacity q.count
    then (returned queue_full none, q)
    else (enqueue_exchanges element q.count, q)
step spurious (enqueue_takes element) q =
    (enqueue_copies element q.head, record q { head = add_size q.head 1 })
step spurious (enqueue_copies element head) q = (
  returned success none,
  record q { buffer = set q.buffer (slot_index q head) (take q.element_size element) },
)
step spurious dequeue_loads q =
    if q.count == 0 then (returned queue_empty none, q) else (dequeue_exchanges q.count, q)
step spurious (dequeue_exchanges expected) q =
    if q.count == expected && not spurious
    then (dequeue_takes, record q { count = less_one expected })
    else if q.count == 0
    then (returned queue_empty none, q)
    else (dequeue_exchanges q.count, q)
step spurious dequeue_takes q = (dequeue_copies q.tail, record q { tail = add_size q.tail 1 })
step spurious (dequeue_copies tail) q =
    (dequeue_zeroes tail (get_or q.buffer (slot_index q tail) []), q)
step spurious (dequeue_zeroes tail element) q = (
  returned success (some element),
  record q { buffer = set q.buffer (slot_index q tail) (zero_slot q) },
)
step spurious peek_loads q =
    if q.count == 0 then (returned queue_empty none, q) else (peek_reads, q)
step spurious peek_reads q = (peek_copies q.tail, q)
step spurious (peek_copies tail) q =
    (returned success (some (get_or q.buffer (slot_index q tail) [])), q)
step spurious clear_stores_head q = clear_step clear_stores_head q
step spurious clear_stores_tail q = clear_step clear_stores_tail q
step spurious clear_stores_count q = clear_step clear_stores_count q
step spurious clear_zeroes q = clear_step clear_zeroes q
step spurious (returned code element) q = (returned code element, q)
step spurious cleared q = (cleared, q)

-- The thread after `fuel` steps on its own, none of which fails for no reason.
unfoldable pub alone : ℕ → Thread → Queue → Thread × Queue
unfolding step
alone zero t q = (t, q)
alone (suc fuel) t q = let (t', q') = step false t q in alone fuel t' q'

-- The threads and the queue that they share.
pub record System : Type 0 where
  pub threads : List Thread
  pub queue : Queue

-- A thread that may call a function of the queue.
pub data IsDone : Thread → Type 0 where
  not_called : IsDone idle
  has_returned : (code : Code) (element : Option Slot) → IsDone (returned code element)
  has_cleared : IsDone cleared

-- A call and its arguments.
pub data Call : Type 0 where
  call_enqueue : Slot → Call
  call_dequeue : Call
  call_peek : Call
  call_clear : Call

-- Where a thread stands that starts a call.
abbrev pub starts : Call → Thread
starts (call_enqueue element) = enqueue_loads element
starts call_dequeue = dequeue_loads
starts call_peek = peek_loads
starts call_clear = clear_stores_head

-- Whether the call is one of those that a system makes, for a system whose threads call `queue_clear`
-- and one whose threads do not.
abbrev pub IsMade : Bool → Call → Type 0
IsMade false call_clear = ⊥
IsMade _ _ = Unit

-- What one thread does while the others wait: it starts a call, or goes on with one.
pub data Step (clears : Bool) : System → System → Type 0 where
  calls :
      (before : List Thread) (t : Thread) (behind : List Thread) (q : Queue) (call : Call)
      → IsDone t
      → IsMade clears call
      → Step clears
          (record { threads = before ++ (t ∷ behind); queue = q })
          (record { threads = before ++ (starts call ∷ behind); queue = q })
  moves :
      (before : List Thread) (t : Thread) (behind : List Thread) (q : Queue) (spurious : Bool)
      → Step clears
          (record { threads = before ++ (t ∷ behind); queue = q })
          (record {
            threads = before ++ ((step spurious t q).0 ∷ behind);
            queue = (step spurious t q).1;
          })

-- What the threads can reach, in any order of their steps.
pub data Reaches (clears : Bool) (start : System) : System → Type 0 where
  here : Reaches clears start start
  there : (s s' : System) → Reaches clears start s → Step clears s s' → Reaches clears start s'
