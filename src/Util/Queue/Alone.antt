-- ===== src/Util/Queue/Alone.antt =====
-- The atomic steps of a call against the function of one thread, where no other thread comes between.
use paum_io_t.Common.{
  ℕ, zero, suc, ◌+◌, ◌-◌, eq→==, get_or, set, take, ◌^◌, ◌≤◌, ◌<◌, ◌≡◌, refl, ap, ◌∙◌, arith,
  Bool-cases, inl, inr, leb, ◌==◌, false, some, none, [], Option,
}
use paum_io_t.Util.Codes.{Code, success, queue_full, queue_empty}
use paum_io_t.Util.Queue.{
  Slot, Queue, enqueue, dequeue, peek, clear, add_size, slot_index, zero_slot,
}
use paum_io_t.Util.Queue.Threads.{
  Thread, enqueue_loads, dequeue_loads, peek_loads, clear_stores_head, returned, cleared, Call,
  call_enqueue, call_dequeue, call_peek, call_clear, starts, step, less_one, alone,
}

pub alone-returned :
    (n : ℕ) (c : Code) (o : Option Slot) (q : Queue) → alone n (returned c o) q ≡ (returned c o, q)
unfolding alone
alone-returned zero c o q = refl
alone-returned (suc n) c o q = alone-returned n c o q

pub alone-cleared : (n : ℕ) (q : Queue) → alone n cleared q ≡ (cleared, q)
unfolding alone
alone-cleared zero q = refl
alone-cleared (suc n) q = alone-cleared n q

-- On its own, a call of `queue_enqueue` returns after at most four steps, and does what the function
-- of one thread does. The capacity is a `size_t`, and the count is within it.
alone-enqueue :
    (extra : ℕ) (q : Queue) (element : Slot)
    → q.capacity < 2 ^ 64
    → q.count ≤ q.capacity
    → alone (suc (suc (suc (suc extra)))) (enqueue_loads element) q
      ≡ (returned ((enqueue q element).0) none, (enqueue q element).1)
unfolding alone step enqueue
alone-enqueue extra q element small bounded = elim (Bool-cases (leb q.capacity q.count)) [
  | inl full ↦ rw full (alone-returned (suc (suc (suc extra))) queue_full none q)
  | inr room ↦
      rw (room, eq→== q.count q.count refl)
        (alone-returned extra success none _
          ∙ ap
              (λ n. (
                returned success none,
                record q {
                  buffer = set q.buffer (slot_index q q.head) (take q.element_size element);
                  count = n;
                  head = add_size q.head 1;
                },
              ))
              (exact room))
]
  where
    exact : leb q.capacity q.count ≡ false → add_size q.count 1 ≡ q.count + 1
    exact e = ground arith

-- On its own, a call of `queue_dequeue` returns after at most five steps, and does what the function
-- of one thread does. The count is a `size_t`.
alone-dequeue :
    (extra : ℕ) (q : Queue)
    → q.count < 2 ^ 64
    → alone (suc (suc (suc (suc (suc extra))))) dequeue_loads q
      ≡ (returned ((dequeue q).0) ((dequeue q).1), (dequeue q).2)
unfolding alone step dequeue
alone-dequeue extra q small = elim (Bool-cases (q.count == 0)) [
  | inl empty ↦ rw empty (alone-returned (suc (suc (suc (suc extra)))) queue_empty none q)
  | inr some_left ↦
      rw (some_left, eq→== q.count q.count refl)
        (alone-returned extra success (some slot) _
          ∙ ap
              (λ n. (
                returned success (some slot),
                record q {
                  buffer = set q.buffer (slot_index q q.tail) (zero_slot q);
                  count = n;
                  tail = add_size q.tail 1;
                },
              ))
              (exact some_left))
]
  where
    slot : Slot
    slot = get_or q.buffer (slot_index q q.tail) []

    exact : (q.count == 0) ≡ false → less_one q.count ≡ q.count - 1
    exact e = ground arith

alone-peek :
    (extra : ℕ) (q : Queue)
    → alone (suc (suc (suc extra))) peek_loads q ≡ (returned ((peek q).0) ((peek q).1), q)
unfolding alone step peek
alone-peek extra q = elim (Bool-cases (q.count == 0)) [
  | inl empty ↦ rw empty (alone-returned (suc (suc extra)) queue_empty none q)
  | inr some_left ↦ rw some_left (alone-returned extra success _ q)
]

alone-clear :
    (extra : ℕ) (q : Queue)
    → alone (suc (suc (suc (suc extra)))) clear_stores_head q ≡ (cleared, clear q)
unfolding alone step clear
alone-clear extra q = alone-cleared extra _

-- What the function of one thread makes of a call.
abbrev pub outcome : Call → Queue → Thread × Queue
outcome (call_enqueue element) q = (returned ((enqueue q element).0) none, (enqueue q element).1)
outcome call_dequeue q = (returned ((dequeue q).0) ((dequeue q).1), (dequeue q).2)
outcome call_peek q = (returned ((peek q).0) ((peek q).1), q)
outcome call_clear q = (cleared, clear q)

-- Without interference, the atomic steps of `queue_enqueue`, `queue_dequeue`, `queue_peek` and
-- `queue_clear` end after five at most, and do what the function of one thread does. The capacity is
-- a `size_t`, and the count is within it.
pub alone-outcome :
    (extra : ℕ) (call : Call) (q : Queue)
    → q.capacity < 2 ^ 64
    → q.count ≤ q.capacity
    → alone (suc (suc (suc (suc (suc extra))))) (starts call) q ≡ outcome call q
alone-outcome extra (call_enqueue element) q small bounded =
    alone-enqueue (suc extra) q element small bounded
alone-outcome extra call_dequeue q small bounded =
    alone-dequeue extra q (omega (arith, small, bounded))
alone-outcome extra call_peek q small bounded = alone-peek (suc (suc extra)) q
alone-outcome extra call_clear q small bounded = alone-clear (suc extra) q
