-- ===== src/Util/Queue/Refine.antt =====
-- Any sequence of calls on the queue, against a bounded first-in, first-out sequence.
use paum_io_t.Common.{
  ℕ, ◌^◌, ◌<◌, ◌≡◌, refl, sym, ap, ◌∙◌, subst, arith, List, [], ◌∷◌, ◌++◌, Option, none, some,
  length, length-replicate, take, ltb, if◌then◌else◌, dec_lt, eq→==, ne→==_false, lt→leb_false,
  le→leb, lt→ltb, le→ltb_false, get_or,
}
use paum_io_t.Util.Codes.{Code, success, queue_full, queue_empty}
use paum_io_t.Util.Queue.{Slot, Queue, slot_index, zero_slot, enqueue, dequeue, peek, clear}
use paum_io_t.Util.Queue.Threads.{Call, call_enqueue, call_dequeue, call_peek, call_clear}
use paum_io_t.Util.Queue.Order.{
  IsValid, contents, window, length-window, enqueued, dequeued, enqueued-contents, enqueued-IsValid,
  dequeued-contents, dequeued-IsValid,
}

-- The code that the call returns and the element it copies.
abbrev pub Answer : Type 0
Answer = Code × Option Slot

unfoldable pub call : Call → Queue → Answer × Queue
unfolding enqueue dequeue peek clear
call (call_enqueue x) q = let (c, q') = enqueue q x in ((c, none), q')
call call_dequeue q = let (c, out, q') = dequeue q in ((c, out), q')
call call_peek q = (peek q, q)
call call_clear q = ((success, none), clear q)

-- The same call on the elements, the oldest first.
unfoldable pub fifo : ℕ → ℕ → Call → List Slot → Answer × List Slot
fifo capacity size (call_enqueue x) xs =
    if ltb (length xs) capacity
    then ((success, none), xs ++ (take size x ∷ []))
    else ((queue_full, none), xs)
fifo capacity size call_dequeue [] = ((queue_empty, none), [])
fifo capacity size call_dequeue (x ∷ xs) = ((success, some x), xs)
fifo capacity size call_peek [] = ((queue_empty, none), [])
fifo capacity size call_peek (x ∷ xs) = ((success, some x), x ∷ xs)
fifo capacity size call_clear xs = ((success, none), [])

-- The answers to a sequence of calls.
unfoldable pub answers : List Call → Queue → List Answer
unfolding call
answers [] q = []
answers (c ∷ cs) q = let (a, q') = call c q in a ∷ answers cs q'

unfoldable pub fifo_answers : ℕ → ℕ → List Call → List Slot → List Answer
unfolding fifo
fifo_answers capacity size [] xs = []
fifo_answers capacity size (c ∷ cs) xs =
    let (a, xs') = fifo capacity size c xs in a ∷ fifo_answers capacity size cs xs'

-- `r` is the outcome of a call, and `s` the outcome that is promised.
pub record Agrees (k : ℕ) (q : Queue) (r : Answer × Queue) (s : Answer × List Slot) : Type 0 where
  pub valid : IsValid k (r.1)
  pub size : r.1.element_size ≡ q.element_size
  pub same : (r.0, contents (r.1)) ≡ s

module _ (k : ℕ) (q : Queue) (v : IsValid k q) where
  length-contents : length (contents q) ≡ q.count
  unfolding contents
  length-contents = length-window q.buffer q.capacity q.tail q.count

  enqueue-eq : (x : List ℕ) → q.count < 2 ^ k → enqueue q x ≡ (success, enqueued q x)
  unfolding enqueue
  enqueue-eq x h = rw (lt→leb_false q.capacity q.count (omega (arith, h, v.power))) refl

  enqueue-eq_full : (x : List ℕ) → ¬ (q.count < 2 ^ k) → enqueue q x ≡ (queue_full, q)
  unfolding enqueue
  enqueue-eq_full x h = rw (le→leb q.capacity q.count (omega (arith, h, v.power))) refl

  dequeue-eq :
      0 < q.count
      → dequeue q ≡ (success, some (get_or q.buffer (slot_index q q.tail) []), dequeued q)
  unfolding dequeue
  dequeue-eq h = rw (ne→==_false q.count 0 (λ e. omega (arith, e, h))) refl

  dequeue-eq_empty : ¬ (0 < q.count) → dequeue q ≡ (queue_empty, none, q)
  unfolding dequeue
  dequeue-eq_empty h = rw (eq→== q.count 0 (omega (arith, h))) refl

  peek-eq : 0 < q.count → peek q ≡ (success, some (get_or q.buffer (slot_index q q.tail) []))
  unfolding peek
  peek-eq h = rw (ne→==_false q.count 0 (λ e. omega (arith, e, h))) refl

  peek-eq_empty : ¬ (0 < q.count) → peek q ≡ (queue_empty, none)
  unfolding peek
  peek-eq_empty h = rw (eq→== q.count 0 (omega (arith, h))) refl

  contents-eq_empty : ¬ (0 < q.count) → contents q ≡ []
  unfolding contents window
  contents-eq_empty h = ap (window q.buffer q.capacity q.tail) zero_count
    where
      zero_count : q.count ≡ 0
      zero_count = omega (arith, h)

  abbrev Sound : Call → Answer × Queue → List Slot → Type 0
  Sound c r xs = Agrees k q r (fifo (2 ^ k) q.element_size c xs)

  call_enqueue-Agrees : (x : List ℕ) → Sound (call_enqueue x) (call (call_enqueue x) q) (contents q)
  unfolding call fifo
  call_enqueue-Agrees x = elim (dec_lt q.count (2 ^ k)) [
    | yes h ↦
        rw (enqueue-eq x h, length-contents, lt→ltb q.count (2 ^ k) h)
          (record {
            valid = enqueued-IsValid k q v x h;
            size = refl;
            same = ap (λ xs. ((success, none), xs)) (enqueued-contents k q v x h);
          })
    | no h ↦
        rw (enqueue-eq_full x h, length-contents, le→ltb_false q.count (2 ^ k) (omega (arith, h)))
          (record { valid = v; size = refl; same = refl })
  ]

  call_dequeue-Agrees : Sound call_dequeue (call call_dequeue q) (contents q)
  unfolding call
  call_dequeue-Agrees = elim (dec_lt 0 q.count) [
    | yes h ↦ subst (Sound call_dequeue (call call_dequeue q)) (sym (dequeued-contents k q v h)) (
        rw (dequeue-eq h)
          (record { valid = dequeued-IsValid k q v h; size = refl; same = unfold fifo in refl }))
    | no h ↦ subst (Sound call_dequeue (call call_dequeue q)) (sym (contents-eq_empty h)) (
        rw (dequeue-eq_empty h) (record {
          valid = v;
          size = refl;
          same = unfold fifo in ap (λ xs. ((queue_empty, none), xs)) (contents-eq_empty h);
        }))
  ]

  call_peek-Agrees : Sound call_peek (call call_peek q) (contents q)
  unfolding call
  call_peek-Agrees = elim (dec_lt 0 q.count) [
    | yes h ↦ subst (Sound call_peek (call call_peek q)) (sym (dequeued-contents k q v h)) (
        rw (peek-eq h) (record {
          valid = v;
          size = refl;
          same =
              unfold fifo in
              ap (λ xs. ((success, some (get_or q.buffer (slot_index q q.tail) [])), xs))
                (dequeued-contents k q v h);
        }))
    | no h ↦ subst (Sound call_peek (call call_peek q)) (sym (contents-eq_empty h)) (
        rw (peek-eq_empty h) (record {
          valid = v;
          size = refl;
          same = unfold fifo in ap (λ xs. ((queue_empty, none), xs)) (contents-eq_empty h);
        }))
  ]

  clear-IsValid : IsValid k (clear q)
  unfolding clear
  clear-IsValid = record {
    exponent = v.exponent;
    power = v.power;
    masked = v.masked;
    room = length-replicate q.capacity (zero_slot q) ∙ v.power;
    bounded = omega arith;
    start = omega arith;
    stop = refl;
  }

  pub call-Agrees : (c : Call) → Sound c (call c q) (contents q)
  call-Agrees (call_enqueue x) = call_enqueue-Agrees x
  call-Agrees call_dequeue = call_dequeue-Agrees
  call-Agrees call_peek = call_peek-Agrees
  call-Agrees call_clear = record {
    valid = unfold call in clear-IsValid;
    size = unfold call clear in refl;
    same = unfold call clear contents window fifo in refl;
  }

answers-fifo_power :
    (k : ℕ) (q : Queue) (cs : List Call)
    → IsValid k q
    → answers cs q ≡ fifo_answers (2 ^ k) q.element_size cs (contents q)
unfolding answers fifo_answers
answers-fifo_power k q [] v = refl
answers-fifo_power k q (c ∷ cs) v =
    let a : Agrees k q (call c q) (fifo (2 ^ k) q.element_size c (contents q)) =
      call-Agrees k q v c in
    ap (λ xs. (call c q).0 ∷ xs)
      (answers-fifo_power k ((call c q).1) cs a.valid
        ∙ ap (λ n. fifo_answers (2 ^ k) n cs (contents ((call c q).1))) a.size)
    ∙ ap (λ s. s.0 ∷ fifo_answers (2 ^ k) q.element_size cs (s.1)) a.same

-- Whatever is called in whatever order on a valid queue, the answers are those of a first-in,
-- first-out sequence that holds at most `capacity` elements and starts with what the queue holds.
pub answers-fifo_answers :
    (k : ℕ) (q : Queue) (cs : List Call)
    → IsValid k q
    → answers cs q ≡ fifo_answers q.capacity q.element_size cs (contents q)
answers-fifo_answers k q cs v =
    answers-fifo_power k q cs v
    ∙ ap (λ n. fifo_answers n q.element_size cs (contents q)) (sym v.power)
