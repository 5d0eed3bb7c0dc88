-- ===== src/Util/Queue/Race.antt =====
-- A run of two threads in which an element is read before it is written.
use paum_io_t.Common.{Bool, ◌<◌, ◌≡◌, refl, subst, arith, false, [], ◌∷◌, some, get_or, set}
use paum_io_t.Util.Codes.{success}
use paum_io_t.Util.Queue.{Slot, Queue, add_size, slot_index, zero_slot}
use paum_io_t.Util.Queue.Threads.{
  Thread, idle, enqueue_loads, enqueue_exchanges, enqueue_takes, dequeue_loads, dequeue_exchanges,
  dequeue_takes, dequeue_copies, dequeue_zeroes, returned, step, less_one, System, not_called,
  call_enqueue, call_dequeue, calls, moves, Reaches, here, there,
}

-- The two threads and the queue.
abbrev pub pair : Thread → Thread → Queue → System
pair t u q = record { threads = t ∷ u ∷ []; queue = q }

-- A run goes on with a step of the first thread, or of the second.
pub first :
    {clears : Bool} (start : System) (t u : Thread) (q : Queue) (t' : Thread) (q' : Queue)
    → Reaches clears start (pair t u q)
    → step false t q ≡ (t', q')
    → Reaches clears start (pair t' u q')
first {clears} start t u q t' q' run e =
    subst (λ (r : Thread × Queue). Reaches clears start (pair r.0 u r.1)) e
      (there _ _ run (moves [] t (u ∷ []) q false))

pub second :
    {clears : Bool} (start : System) (t u : Thread) (q : Queue) (u' : Thread) (q' : Queue)
    → Reaches clears start (pair t u q)
    → step false u q ≡ (u', q')
    → Reaches clears start (pair t u' q')
second {clears} start t u q u' q' run e =
    subst (λ (r : Thread × Queue). Reaches clears start (pair t r.0 r.1)) e
      (there _ _ run (moves (t ∷ []) u [] q false))

-- On an empty queue with zeroed slots, whatever element one thread puts in, another thread's
-- `queue_dequeue` may return success with a zeroed slot in its place: it runs after the first has
-- raised the count and before it has written the slot.
pub dequeue_before_write :
    (q : Queue) (element : Slot)
    → q.count ≡ 0
    → 0 < q.capacity
    → get_or q.buffer (slot_index q q.tail) [] ≡ zero_slot q
    → (s : System) × Reaches false (record { threads = idle ∷ idle ∷ []; queue = q }) s
      × (s.threads ≡ enqueue_takes element ∷ returned success (some (zero_slot q)) ∷ [])
dequeue_before_write q element empty room zeroed = (
  pair (enqueue_takes element) (returned success (some (zero_slot q))) ended,
  second start (enqueue_takes element) (dequeue_zeroes q.tail (zero_slot q)) taken _ ended
      (second start (enqueue_takes element) (dequeue_copies q.tail) taken _ taken
        (second start (enqueue_takes element) dequeue_takes none_left _ taken
          (second start (enqueue_takes element) (dequeue_exchanges 1) one _ none_left
            (second start (enqueue_takes element) dequeue_loads one _ one
              (there _ _ raised
                (calls (enqueue_takes element ∷ []) idle [] one call_dequeue not_called tt))
              (unfold step in refl))
            (unfold step in refl))
          (unfold step in refl))
        reads)
      (unfold step in refl),
  refl,
)
  where
    start : System
    start = pair idle idle q

    -- The count is raised, and then lowered again.
    one : Queue
    one = record q { count = add_size 0 1 }

    none_left : Queue
    none_left = record q { count = less_one 1 }

    taken : Queue
    taken = record none_left { tail = add_size q.tail 1 }

    ended : Queue
    ended = record taken { buffer = set q.buffer (slot_index q q.tail) (zero_slot q) }

    loads : step false (enqueue_loads element) q ≡ (enqueue_exchanges element 0, q)
    loads = unfold step in ground (arith, empty)

    exchanges : step false (enqueue_exchanges element 0) q ≡ (enqueue_takes element, one)
    exchanges = unfold step in ground (arith, empty)

    reads : step false (dequeue_copies q.tail) taken ≡ (dequeue_zeroes q.tail (zero_slot q), taken)
    reads = unfold step in rw zeroed refl

    raised : Reaches false start (pair (enqueue_takes element) idle one)
    raised =
        first start (enqueue_exchanges element 0) idle q _ one
          (first start (enqueue_loads element) idle q _ q
            (there _ _ here (calls [] idle (idle ∷ []) q (call_enqueue element) not_called tt))
            loads)
          exchanges
