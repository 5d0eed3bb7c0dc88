-- ===== src/Util/Queue/Progress.antt =====
-- A thread that is left alone ends its call, whatever the others have done before.
use paum_io_t.Common.{
  ℕ, suc, ◌≡◌, refl, sym, subst, true, Option, none, some, eq→==, ◌==◌, leb, Bool-cases, inl, inr,
  false,
}
use paum_io_t.Util.Codes.{Code, success, queue_full, queue_empty}
use paum_io_t.Util.Queue.{Slot, Queue, add_size}
use paum_io_t.Util.Queue.Threads.{
  Thread, idle, enqueue_loads, enqueue_exchanges, enqueue_takes, enqueue_copies, dequeue_loads,
  dequeue_exchanges, dequeue_takes, dequeue_copies, dequeue_zeroes, returned, peek_loads,
  peek_reads, peek_copies, clear_stores_head, clear_stores_tail, clear_stores_count, clear_zeroes,
  cleared, step, alone, less_one,
}
use paum_io_t.Util.Queue.Alone.{alone-returned, alone-cleared}

-- The thread has returned from its call.
abbrev pub IsReturned : Thread → Type 0
IsReturned (returned c o) = Unit {0}
IsReturned cleared = Unit
IsReturned _ = ⊥

-- After `n` steps the thread has returned.
abbrev pub Returns : ℕ → Thread → Queue → Type 0
Returns n t q = IsReturned ((alone n t q).0)

returned-Returns : (n : ℕ) (c : Code) (o : Option Slot) (q : Queue) → Returns n (returned c o) q
returned-Returns n c o q = subst (λ r. IsReturned (r.0)) (sym (alone-returned n c o q)) tt

cleared-Returns : (n : ℕ) (q : Queue) → Returns n cleared q
cleared-Returns n q = subst (λ r. IsReturned (r.0)) (sym (alone-cleared n q)) tt

module _ (n : ℕ) where
  -- Behind a successful exchange nothing can go wrong.
  takes-Returns : (e : Slot) (q : Queue) → Returns (suc (suc n)) (enqueue_takes e) q
  unfolding alone step
  takes-Returns e q = returned-Returns n success none _

  dequeue_takes-Returns : (q : Queue) → Returns (suc (suc (suc n))) dequeue_takes q
  unfolding alone step
  dequeue_takes-Returns q = returned-Returns n success (some _) _

-- The rest of a call behind one step.
step-Returns :
    (n : ℕ) (t : Thread) (q : Queue) (r : Thread × Queue)
    → step false t q ≡ r
    → Returns n (r.0) (r.1)
    → Returns (suc n) t q
unfolding alone
step-Returns n t q r e h = subst (λ x. Returns n (x.0) (x.1)) (sym e) h

-- A loop's exchange succeeds if its expected value is right; otherwise the call returns, or the next
-- exchange is right.
module _ (n : ℕ) (q : Queue) where
  exchanges-Returns :
      (e : Slot) (x : ℕ)
      → (q.count == x) ≡ true
      → Returns (suc (suc (suc n))) (enqueue_exchanges e x) q
  exchanges-Returns e x h =
      step-Returns (suc (suc n)) (enqueue_exchanges e x) q
        (enqueue_takes e, record q { count = add_size x 1 }) (unfold step in rw h refl)
        (takes-Returns n e _)

  dequeue_exchanges-Returns :
      (x : ℕ) → (q.count == x) ≡ true → Returns (suc (suc (suc (suc n)))) (dequeue_exchanges x) q
  dequeue_exchanges-Returns x h =
      step-Returns (suc (suc (suc n))) (dequeue_exchanges x) q
        (dequeue_takes, record q { count = less_one x }) (unfold step in rw h refl)
        (dequeue_takes-Returns n _)

  retries-Returns : (e : Slot) (x : ℕ) → Returns (suc (suc (suc (suc n)))) (enqueue_exchanges e x) q
  retries-Returns e x = elim (Bool-cases (q.count == x)) [
    | inl h ↦
        step-Returns (suc (suc (suc n))) (enqueue_exchanges e x) q
          (enqueue_takes e, record q { count = add_size x 1 }) (unfold step in rw h refl)
          (takes-Returns (suc n) e _)
    | inr h ↦ elim (Bool-cases (leb q.capacity q.count)) [
      | inl full ↦
          step-Returns (suc (suc (suc n))) (enqueue_exchanges e x) q (returned queue_full none, q)
            (unfold step in rw (h, full) refl)
            (returned-Returns (suc (suc (suc n))) queue_full none q)
      | inr room ↦
          step-Returns (suc (suc (suc n))) (enqueue_exchanges e x) q
            (enqueue_exchanges e q.count, q) (unfold step in rw (h, room) refl)
            (exchanges-Returns e q.count (eq→== q.count q.count refl))
    ]
  ]

  dequeue_retries-Returns :
      (x : ℕ) → Returns (suc (suc (suc (suc (suc n))))) (dequeue_exchanges x) q
  dequeue_retries-Returns x = elim (Bool-cases (q.count == x)) [
    | inl h ↦
        step-Returns (suc (suc (suc (suc n)))) (dequeue_exchanges x) q
          (dequeue_takes, record q { count = less_one x }) (unfold step in rw h refl)
          (dequeue_takes-Returns (suc n) _)
    | inr h ↦ elim (Bool-cases (q.count == 0)) [
      | inl empty ↦
          step-Returns (suc (suc (suc (suc n)))) (dequeue_exchanges x) q
            (returned queue_empty none, q) (unfold step in rw (h, empty) refl)
            (returned-Returns (suc (suc (suc (suc n)))) queue_empty none q)
      | inr some_left ↦
          step-Returns (suc (suc (suc (suc n)))) (dequeue_exchanges x) q
            (dequeue_exchanges q.count, q) (unfold step in rw (h, some_left) refl)
            (dequeue_exchanges-Returns q.count (eq→== q.count q.count refl))
    ]
  ]

  -- The first step of a call.
  enqueue_loads-Returns : (e : Slot) → Returns (suc (suc (suc (suc n)))) (enqueue_loads e) q
  enqueue_loads-Returns e = elim (Bool-cases (leb q.capacity q.count)) [
    | inl full ↦
        step-Returns (suc (suc (suc n))) (enqueue_loads e) q (returned queue_full none, q)
          (unfold step in rw full refl) (returned-Returns (suc (suc (suc n))) queue_full none q)
    | inr room ↦
        step-Returns (suc (suc (suc n))) (enqueue_loads e) q (enqueue_exchanges e q.count, q)
          (unfold step in rw room refl) (exchanges-Returns e q.count (eq→== q.count q.count refl))
  ]

  dequeue_loads-Returns : Returns (suc (suc (suc (suc (suc n))))) dequeue_loads q
  dequeue_loads-Returns = elim (Bool-cases (q.count == 0)) [
    | inl empty ↦
        step-Returns (suc (suc (suc (suc n)))) dequeue_loads q (returned queue_empty none, q)
          (unfold step in rw empty refl)
          (returned-Returns (suc (suc (suc (suc n)))) queue_empty none q)
    | inr some_left ↦
        step-Returns (suc (suc (suc (suc n)))) dequeue_loads q (dequeue_exchanges q.count, q)
          (unfold step in rw some_left refl)
          (dequeue_exchanges-Returns q.count (eq→== q.count q.count refl))
  ]

  peek_loads-Returns : Returns (suc (suc (suc n))) peek_loads q
  unfolding alone step
  peek_loads-Returns = elim (Bool-cases (q.count == 0)) [
    | inl empty ↦
        step-Returns (suc (suc n)) peek_loads q (returned queue_empty none, q) (rw empty refl)
          (returned-Returns (suc (suc n)) queue_empty none q)
    | inr some_left ↦
        step-Returns (suc (suc n)) peek_loads q (peek_reads, q) (rw some_left refl)
          (returned-Returns n success (some _) q)
  ]

-- The thread is in a call, or has returned from one.
abbrev pub IsCalled : Thread → Type 0
IsCalled idle = ⊥
IsCalled _ = Unit {0}

-- Wherever a thread stands in its call, and whatever the others have made of the queue, it returns
-- after five steps of its own at most, if nobody else moves and no exchange fails for no reason.
pub alone-Returns :
    (extra : ℕ) (t : Thread) (q : Queue)
    → IsCalled t
    → Returns (suc (suc (suc (suc (suc extra))))) t q
unfolding alone step
alone-Returns extra idle q h = absurd h
alone-Returns extra (enqueue_loads e) q h = enqueue_loads-Returns (suc extra) q e
alone-Returns extra (enqueue_exchanges e x) q h = retries-Returns (suc extra) q e x
alone-Returns extra (enqueue_takes e) q h = takes-Returns (suc (suc (suc extra))) e q
alone-Returns extra (enqueue_copies e head) q h =
    returned-Returns (suc (suc (suc (suc extra)))) success none _
alone-Returns extra dequeue_loads q h = dequeue_loads-Returns extra q
alone-Returns extra (dequeue_exchanges x) q h = dequeue_retries-Returns extra q x
alone-Returns extra dequeue_takes q h = dequeue_takes-Returns (suc (suc extra)) q
alone-Returns extra (dequeue_copies tail) q h =
    returned-Returns (suc (suc (suc extra))) success (some _) _
alone-Returns extra (dequeue_zeroes tail e) q h =
    returned-Returns (suc (suc (suc (suc extra)))) success (some e) _
alone-Returns extra peek_loads q h = peek_loads-Returns (suc (suc extra)) q
alone-Returns extra peek_reads q h = returned-Returns (suc (suc (suc extra))) success (some _) q
alone-Returns extra (peek_copies tail) q h =
    returned-Returns (suc (suc (suc (suc extra)))) success (some _) q
alone-Returns extra clear_stores_head q h = cleared-Returns (suc extra) _
alone-Returns extra clear_stores_tail q h = cleared-Returns (suc (suc extra)) _
alone-Returns extra clear_stores_count q h = cleared-Returns (suc (suc (suc extra))) _
alone-Returns extra clear_zeroes q h = cleared-Returns (suc (suc (suc (suc extra)))) _
alone-Returns extra (returned c o) q h = returned-Returns (suc (suc (suc (suc (suc extra))))) c o q
alone-Returns extra cleared q h = cleared-Returns (suc (suc (suc (suc (suc extra))))) q
