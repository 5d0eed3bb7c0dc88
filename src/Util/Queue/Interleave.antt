-- ===== src/Util/Queue/Interleave.antt =====
-- What holds of the queue in every order of the threads' steps.
use paum_io_t.Common.{
  ℕ, ◌+◌, ◌%◌, ◌^◌, ◌≤◌, ◌<◌, ◌≡◌, sym, ap, ◌∙◌, arith, Bool, false, List, ◌∷◌, ◌++◌, [], All,
}
use paum_io_t.Util.Queue.{Queue}
use paum_io_t.Util.Queue.Threads.{Thread, System, starts, Step, calls, moves, Reaches, here, there}
use paum_io_t.Util.Queue.Turn.{
  Expects, raised, lowered, IsBounded, Balance, step-IsBounded, step-Balance, starts-IsBounded,
  starts-Balance,
}

unfoldable pub total : (Thread → ℕ) → List Thread → ℕ
total f [] = 0
total f (t ∷ ts) = f t + total f ts

-- The count stays within the capacity, and if nobody clears the queue, it is the distance from `tail`
-- to `head`, but for the calls that are under way.
pub record IsSound (clears : Bool) (capacity : ℕ) (s : System) : Type 0 where
  pub same : s.queue.capacity ≡ capacity
  pub bounded : s.queue.count ≤ capacity
  pub expects : All (Expects clears capacity) s.threads
  pub balance :
      clears ≡ false
      → (s.queue.head + total raised s.threads) % 2 ^ 64
        ≡ (s.queue.tail + total lowered s.threads + s.queue.count) % 2 ^ 64

total-append :
    (f : Thread → ℕ) (before behind : List Thread) (t : Thread)
    → total f (before ++ (t ∷ behind)) ≡ f t + (total f before + total f behind)
unfolding total
total-append f [] behind t = omega arith
total-append f (x ∷ before) behind t = omega (arith, total-append f before behind t)

All-replace :
    (P : Thread → Type 0) (before behind : List Thread) (t t' : Thread)
    → All P (before ++ (t ∷ behind))
    → (P t → P t')
    → All P (before ++ (t' ∷ behind))
All-replace P [] behind t t' h f = (f h.0, h.1)
All-replace P (x ∷ before) behind t t' h f = (h.0, All-replace P before behind t t' h.1 f)

All-at :
    (P : Thread → Type 0) (before behind : List Thread) (t : Thread)
    → All P (before ++ (t ∷ behind))
    → P t
All-at P [] behind t h = h.0
All-at P (x ∷ before) behind t h = All-at P before behind t h.1

module _ (clears : Bool) (capacity : ℕ) where
  module _ (before : List Thread) (t : Thread) (behind : List Thread) (q : Queue) where
    local :
        IsSound clears capacity (record { threads = before ++ (t ∷ behind); queue = q })
        → IsBounded clears capacity t q
    local h = record {
      same = h.same;
      bounded = h.bounded;
      expects = All-at (Expects clears capacity) before behind t h.expects;
    }

    -- The other threads stay where they are.
    abbrev others : (Thread → ℕ) → ℕ
    others f = total f before + total f behind

    global :
        (t' : Thread) (q' : Queue)
        → IsSound clears capacity (record { threads = before ++ (t ∷ behind); queue = q })
        → IsBounded clears capacity t' q'
        → (clears ≡ false
            → Balance (others raised) (others lowered) t q
            → Balance (others raised) (others lowered) t' q')
        → IsSound clears capacity (record { threads = before ++ (t' ∷ behind); queue = q' })
    global t' q' h l keeps = record {
      same = l.same;
      bounded = l.bounded;
      expects = All-replace (Expects clears capacity) before behind t t' h.expects (λ _. l.expects);
      balance = λ never.
          ap (λ n. (q'.head + n) % 2 ^ 64) (total-append raised before behind t')
          ∙ keeps never (
              ap (λ n. (q.head + n) % 2 ^ 64) (sym (total-append raised before behind t))
              ∙ h.balance never
              ∙ ap (λ n. (q.tail + n + q.count) % 2 ^ 64) (total-append lowered before behind t))
          ∙ ap (λ n. (q'.tail + n + q'.count) % 2 ^ 64)
              (sym (total-append lowered before behind t'));
    }

  Step-IsSound :
      (s s' : System)
      → capacity < 2 ^ 64
      → Step clears s s'
      → IsSound clears capacity s
      → IsSound clears capacity s'
  Step-IsSound s s' small (calls before t behind q call done made) h =
      global before t behind q (starts call) q h
        (starts-IsBounded clears capacity t q call made (local before t behind q h))
        (λ never. starts-Balance clears capacity _ _ t q call done)
  Step-IsSound s s' small (moves before t behind q spurious) h =
      global before t behind q _ _ h
        (step-IsBounded clears capacity spurious t q small (local before t behind q h))
        (λ never.
          step-Balance clears capacity spurious _ _ t q small never (local before t behind q h))

-- Whatever number of threads call `queue_enqueue`, `queue_dequeue`, `queue_peek` and `queue_clear`, in
-- any order of their steps and with exchanges that fail for no reason, a sound system stays sound:
-- the count never exceeds the capacity, and if no thread calls `queue_clear`, it is the distance from
-- `tail` to `head` on the 64-bit circle, but for the calls that have changed the count and not yet
-- taken their place.
pub Reaches-IsSound :
    (clears : Bool) (capacity : ℕ) (s s' : System)
    → capacity < 2 ^ 64
    → IsSound clears capacity s
    → Reaches clears s s'
    → IsSound clears capacity s'
Reaches-IsSound clears capacity s s' small h here = h
Reaches-IsSound clears capacity s s' small h (there s1 s2 run move) =
    Step-IsSound clears capacity s1 s' small move (Reaches-IsSound clears capacity s s1 small h run)
