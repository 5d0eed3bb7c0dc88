-- ===== src/Util/Queue/Sequential.antt =====
-- The atomic steps of a call against the first-in, first-out sequence, where no other thread comes
-- between.
use paum_io_t.Common.{ℕ, suc, ◌≡◌, refl, ap, sym, subst, arith}
use paum_io_t.Util.Queue.{Queue}
use paum_io_t.Util.Queue.Threads.{
  Thread, returned, cleared, Call, call_enqueue, call_dequeue, call_peek, call_clear, starts, alone,
}
use paum_io_t.Util.Queue.Order.{IsValid, contents, capacity-lt}
use paum_io_t.Util.Queue.Refine.{Answer, Agrees, call, call-Agrees, fifo}
use paum_io_t.Util.Queue.Alone.{outcome, alone-outcome}

-- Where a thread stands whose call has this answer. `queue_clear` returns nothing.
abbrev pub ended : Call → Answer → Thread
ended call_clear a = cleared
ended _ (code, element) = returned code element

outcome-call : (c : Call) (q : Queue) → outcome c q ≡ (ended c ((call c q).0), (call c q).1)
unfolding call
outcome-call (call_enqueue x) q = refl
outcome-call call_dequeue q = refl
outcome-call call_peek q = refl
outcome-call call_clear q = refl

-- Without interference, the atomic steps of `queue_enqueue`, `queue_dequeue`, `queue_peek` and
-- `queue_clear` end after five at most: on a valid queue they return what a first-in, first-out
-- sequence of at most `capacity` elements answers, and leave a valid queue that holds what is then in
-- the sequence.
pub alone-fifo :
    (k extra : ℕ) (c : Call) (q : Queue)
    → IsValid k q
    → ((alone (suc (suc (suc (suc (suc extra))))) (starts c) q).0
        ≡ ended c ((fifo q.capacity q.element_size c (contents q)).0))
      × (contents ((alone (suc (suc (suc (suc (suc extra))))) (starts c) q).1)
          ≡ (fifo q.capacity q.element_size c (contents q)).1)
      × IsValid k ((alone (suc (suc (suc (suc (suc extra))))) (starts c) q).1)
alone-fifo k extra c q v =
    rw
      (
        alone-outcome extra c q (capacity-lt k q v) (omega (arith, v.power, v.bounded)),
        outcome-call c q,
      )
      (ap (λ s. ended c (s.0)) a.same, ap (λ s. s.1) a.same, a.valid)
  where
    a : Agrees k q (call c q) (fifo q.capacity q.element_size c (contents q))
    a =
        subst (λ n. Agrees k q (call c q) (fifo n q.element_size c (contents q))) (sym v.power)
          (call-Agrees k q v c)
