-- ===== src/Util/Queue/Turn.antt =====
-- What one thread's step does to the count and to the places in the queue.
use paum_io_t.Common.{ℕ, ◌+◌, ◌%◌, ◌^◌, ◌≤◌, ◌<◌, ◌≡◌, arith, Bool, true, false, refl}
use paum_io_t.Util.Queue.{Queue}
use paum_io_t.Util.Queue.Threads.{
  Thread, idle, enqueue_loads, enqueue_exchanges, enqueue_takes, enqueue_copies, dequeue_loads,
  dequeue_exchanges, dequeue_takes, dequeue_copies, dequeue_zeroes, returned, peek_loads,
  peek_reads, peek_copies, clear_stores_head, clear_stores_tail, clear_stores_count, clear_zeroes,
  cleared, step, IsDone, not_called, has_returned, has_cleared, Call, call_enqueue, call_dequeue,
  call_peek, call_clear, starts, IsMade,
}

-- What the loop of a call knows of `expected`, and that nobody clears the queue if nobody may.
abbrev pub Expects : Bool → ℕ → Thread → Type 0
Expects clears capacity (enqueue_exchanges element expected) = expected < capacity
Expects clears capacity (dequeue_exchanges expected) = 0 < expected
Expects clears capacity clear_stores_head = clears ≡ true
Expects clears capacity clear_stores_tail = clears ≡ true
Expects clears capacity clear_stores_count = clears ≡ true
Expects clears capacity clear_zeroes = clears ≡ true
Expects clears capacity _ = Unit

-- A call of `queue_enqueue` that has raised the count and not yet taken its place.
abbrev pub raised : Thread → ℕ
raised (enqueue_takes element) = 1
raised _ = 0

-- A call of `queue_dequeue` that has lowered the count and not yet taken its place.
abbrev pub lowered : Thread → ℕ
lowered dequeue_takes = 1
lowered _ = 0

IsMade-clears : (clears : Bool) → IsMade clears call_clear → clears ≡ true
IsMade-clears true made = refl
IsMade-clears false made = absurd made

-- What one step does to the count.
pub record IsBounded (clears : Bool) (capacity : ℕ) (t : Thread) (q : Queue) : Type 0 where
  pub same : q.capacity ≡ capacity
  pub bounded : q.count ≤ capacity
  pub expects : Expects clears capacity t

-- The balance of one thread, for `x` and `y` of the other threads.
abbrev pub Balance : ℕ → ℕ → Thread → Queue → Type 0
Balance x y t q = (q.head + (raised t + x)) % 2 ^ 64 ≡ (q.tail + (lowered t + y) + q.count) % 2 ^ 64

module _ (clears : Bool) (capacity : ℕ) where
  module _ (spurious : Bool) where
    pub step-IsBounded :
        (t : Thread) (q : Queue)
        → capacity < 2 ^ 64
        → IsBounded clears capacity t q
        → IsBounded clears capacity ((step spurious t q).0) ((step spurious t q).1)
    unfolding step
    step-IsBounded idle q small h = h
    step-IsBounded (enqueue_loads element) q small h = ground arith
    step-IsBounded (enqueue_exchanges element expected) q small h = ground arith
    step-IsBounded (enqueue_takes element) q small h = ground arith
    step-IsBounded (enqueue_copies element head) q small h = ground arith
    step-IsBounded dequeue_loads q small h = ground arith
    step-IsBounded (dequeue_exchanges expected) q small h = ground arith
    step-IsBounded dequeue_takes q small h = ground arith
    step-IsBounded (dequeue_copies tail) q small h = ground arith
    step-IsBounded (dequeue_zeroes tail element) q small h = ground arith
    step-IsBounded peek_loads q small h = ground arith
    step-IsBounded peek_reads q small h = ground arith
    step-IsBounded (peek_copies tail) q small h = ground arith
    step-IsBounded clear_stores_head q small h = ground arith
    step-IsBounded clear_stores_tail q small h = ground arith
    step-IsBounded clear_stores_count q small h = ground arith
    step-IsBounded clear_zeroes q small h = ground arith
    step-IsBounded (returned code element) q small h = h
    step-IsBounded cleared q small h = h

    pub step-Balance :
        (x y : ℕ) (t : Thread) (q : Queue)
        → capacity < 2 ^ 64
        → clears ≡ false
        → IsBounded clears capacity t q
        → Balance x y t q
        → Balance x y ((step spurious t q).0) ((step spurious t q).1)
    unfolding step
    step-Balance x y idle q small never h e = e
    step-Balance x y (enqueue_loads element) q small never h e = ground arith
    step-Balance x y (enqueue_exchanges element expected) q small never h e = ground arith
    step-Balance x y (enqueue_takes element) q small never h e = ground arith
    step-Balance x y (enqueue_copies element head) q small never h e = ground arith
    step-Balance x y dequeue_loads q small never h e = ground arith
    step-Balance x y (dequeue_exchanges expected) q small never h e = ground arith
    step-Balance x y dequeue_takes q small never h e = ground arith
    step-Balance x y (dequeue_copies tail) q small never h e = ground arith
    step-Balance x y (dequeue_zeroes tail element) q small never h e = ground arith
    step-Balance x y peek_loads q small never h e = ground arith
    step-Balance x y peek_reads q small never h e = ground arith
    step-Balance x y (peek_copies tail) q small never h e = ground arith
    step-Balance x y clear_stores_head q small never h e = ground arith
    step-Balance x y clear_stores_tail q small never h e = ground arith
    step-Balance x y clear_stores_count q small never h e = ground arith
    step-Balance x y clear_zeroes q small never h e = ground arith
    step-Balance x y (returned code element) q small never h e = e
    step-Balance x y cleared q small never h e = e

  -- A thread that starts a call.
  pub starts-IsBounded :
      (t : Thread) (q : Queue) (call : Call)
      → IsMade clears call
      → IsBounded clears capacity t q
      → IsBounded clears capacity (starts call) q
  starts-IsBounded t q call made h = record {
    same = h.same;
    bounded = h.bounded;
    expects = made-Expects call made;
  }
    where
      made-Expects : (call : Call) → IsMade clears call → Expects clears capacity (starts call)
      made-Expects (call_enqueue element) made = tt
      made-Expects call_dequeue made = tt
      made-Expects call_peek made = tt
      made-Expects call_clear made = IsMade-clears clears made

  pub starts-Balance :
      (x y : ℕ) (t : Thread) (q : Queue) (call : Call)
      → IsDone t
      → Balance x y t q
      → Balance x y (starts call) q
  starts-Balance x y t q call done e = omega (
    arith,
    e,
    (done_counts done).0,
    (done_counts done).1,
    (starts_counts call).0,
    (starts_counts call).1,
  )
    where
      done_counts : {t : Thread} → IsDone t → (raised t ≡ 0) × (lowered t ≡ 0)
      done_counts not_called = (refl, refl)
      done_counts (has_returned code element) = (refl, refl)
      done_counts has_cleared = (refl, refl)

      starts_counts : (call : Call) → (raised (starts call) ≡ 0) × (lowered (starts call) ≡ 0)
      starts_counts (call_enqueue element) = (refl, refl)
      starts_counts call_dequeue = (refl, refl)
      starts_counts call_peek = (refl, refl)
      starts_counts call_clear = (refl, refl)
