-- ===== src/Util/Queue/ClearRace.antt =====
-- A run of two threads in which `queue_clear` comes between the steps of `queue_enqueue`.
use paum_io_t.Common.{
  suc, ℕ, ◌%◌, ◌^◌, ◌<◌, ◌≡◌, ◌≢◌, refl, ap, ◌∙◌, arith, true, false, [], ◌∷◌, some, none, get_or,
  set, take, replicate, bit_and, length-replicate, get_or-set_self, get_or-set_ne, eq→==, leb,
  lt→leb_false,
}
use native.Mathlib.Nat.{mod-eq_of_lt}
use paum_io_t.Common.Bits.{bit_and_mask, pow_pos, pow_suc}
use paum_io_t.Util.Codes.{success, queue_empty}
use paum_io_t.Util.Queue.{Slot, Queue, enqueue, dequeue, peek, add_size, slot_index, zero_slot}
use paum_io_t.Util.Queue.Order.{IsValid, capacity-lt}
use paum_io_t.Util.Queue.Threads.{
  idle, enqueue_loads, enqueue_exchanges, enqueue_takes, enqueue_copies, clear_stores_head,
  clear_stores_tail, clear_stores_count, clear_zeroes, cleared, returned, step, System, not_called,
  call_enqueue, call_clear, calls, Reaches, here, there,
}
use paum_io_t.Util.Queue.Race.{pair, first, second}

-- What the run leaves: an empty queue, whose head is one place ahead of its tail, with the element in
-- the place that the tail points to.
abbrev pub lagging : Queue → Slot → Queue
lagging q element = record q {
  buffer = set (replicate q.capacity (zero_slot q)) (slot_index q 0) (take q.element_size element);
  head = 1;
  tail = 0;
  count = 0;
}

-- The first thread raises the count, the second clears the queue, and the first goes on.
pub Reaches-lagging :
    (q : Queue) (element : Slot)
    → q.capacity < 2 ^ 64
    → q.count < q.capacity
    → Reaches true (pair idle idle q) (pair (returned success none) cleared (lagging q element))
Reaches-lagging q element small room =
    first start (enqueue_copies element 0) cleared advanced (returned success none) _
      (first start (enqueue_takes element) cleared wiped _ advanced
        (second start (enqueue_takes element) clear_zeroes counted _ wiped
          (second start (enqueue_takes element) clear_stores_count tailed _ counted
            (second start (enqueue_takes element) clear_stores_tail headed _ tailed
              (second start (enqueue_takes element) clear_stores_head raised _ headed
                (there _ _ exchanged
                  (calls (enqueue_takes element ∷ []) idle [] raised call_clear not_called tt))
                (unfold step in refl))
              (unfold step in refl))
            (unfold step in refl))
          (unfold step in refl))
        (unfold step in refl))
      (unfold step in refl)
  where
    start : System
    start = pair idle idle q

    raised : Queue
    raised = record q { count = add_size q.count 1 }

    headed : Queue
    headed = record raised { head = 0 }

    tailed : Queue
    tailed = record headed { tail = 0 }

    counted : Queue
    counted = record tailed { count = 0 }

    wiped : Queue
    wiped = record counted { buffer = replicate q.capacity (zero_slot q) }

    advanced : Queue
    advanced = record wiped { head = 1 }

    loads : step false (enqueue_loads element) q ≡ (enqueue_exchanges element q.count, q)
    loads = unfold step in ground arith

    exchanges : step false (enqueue_exchanges element q.count) q ≡ (enqueue_takes element, raised)
    exchanges = unfold step in rw (eq→== q.count q.count refl) refl

    exchanged : Reaches true start (pair (enqueue_takes element) idle raised)
    exchanged =
        first start (enqueue_exchanges element q.count) idle q _ raised
          (first start (enqueue_loads element) idle q _ q
            (there _ _ here (calls [] idle (idle ∷ []) q (call_enqueue element) not_called tt))
            loads)
          exchanges

module _ (k : ℕ) (q : Queue) (element : Slot) (v : IsValid (suc k) q) where
  index-eq : (i : ℕ) → slot_index q i ≡ i % (2 ^ suc k)
  index-eq i = ap (bit_and i) v.masked ∙ bit_and_mask (suc k) i

  places : slot_index q 1 ≢ slot_index q 0
  places e = absurd (
      omega (
        arith,
        e,
        index-eq 0,
        index-eq 1,
        mod-eq_of_lt {n = 1} {m = 2 ^ suc k} (omega (arith, pow_suc k, pow_pos k)),
        mod-eq_of_lt {n = 0} {m = 2 ^ suc k} (pow_pos (suc k)),
      ))

  room-lagging : leb q.capacity 0 ≡ false
  room-lagging = lt→leb_false q.capacity 0 (omega (arith, v.power, pow_pos (suc k)))

  slot-lagging :
      (x : Slot)
      → get_or (set (lagging q element).buffer (slot_index q 1) x) (slot_index q 0) []
        ≡ take q.element_size element
  slot-lagging x =
      get_or-set_ne (lagging q element).buffer x [] places
      ∙ get_or-set_self (replicate q.capacity (zero_slot q)) (slot_index q 0) _ [] (
          omega (
            arith,
            index-eq 0,
            length-replicate q.capacity (zero_slot q),
            v.power,
            pow_pos (suc k),
          ))

  peek-lagging : peek (lagging q element) ≡ (queue_empty, none)
  unfolding peek
  peek-lagging = refl

  -- The element that is put in goes to the next slot.
  abbrev filled : Slot → Queue
  filled later = record (lagging q element) {
    buffer = set (lagging q element).buffer (slot_index q 1) (take q.element_size later);
    count = 1;
    head = 2;
  }

  enqueue-lagging : (later : Slot) → enqueue (lagging q element) later ≡ (success, filled later)
  unfolding enqueue
  enqueue-lagging later = rw room-lagging refl

  dequeue-filled : (later : Slot) → (dequeue (filled later)).1 ≡ some (take q.element_size element)
  unfolding dequeue
  dequeue-filled later = ap some (slot-lagging (take q.element_size later))

-- If a thread calls `queue_clear` while another is in `queue_enqueue`, on a queue of two slots at
-- least that is not full, both can return, the latter with success, and the queue is empty: the
-- element is lost. Whatever element is put in next, the call of `queue_dequeue` after it takes out
-- the one that was lost.
pub clear_within_enqueue :
    (k : ℕ) (q : Queue) (element later : Slot)
    → IsValid (suc k) q
    → q.count < q.capacity
    → (s : System) × Reaches true (pair idle idle q) s
      × (s.threads ≡ returned success none ∷ cleared ∷ [])
      × (peek s.queue ≡ (queue_empty, none))
      × ((dequeue ((enqueue s.queue later).1)).1 ≡ some (take q.element_size element))
clear_within_enqueue k q element later v room = (
  pair (returned success none) cleared (lagging q element),
  Reaches-lagging q element (capacity-lt (suc k) q v) room,
  refl,
  peek-lagging k q element v,
  ap (λ r. (dequeue (r.1)).1) (enqueue-lagging k q element v later)
      ∙ dequeue-filled k q element v later,
)
