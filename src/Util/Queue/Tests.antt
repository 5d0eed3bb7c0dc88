-- ===== src/Util/Queue/Tests.antt =====
-- The theorems on the queue under several threads at concrete queues.
use paum_io_t.Common.{false, ◌≡◌, refl, true, arith, [], ◌∷◌, some, none}
use paum_io_t.Util.Codes.{success, queue_empty}
use paum_io_t.Util.Queue.{Queue, enqueue, dequeue, peek, zero_slot}
use paum_io_t.Util.Queue.Threads.{
  idle, dequeue_exchanges, enqueue_loads, enqueue_takes, dequeue_loads, returned, cleared,
  call_dequeue, starts, alone, step, alone, System, moves, Reaches, here, there,
}
use paum_io_t.Util.Queue.Interleave.{IsSound, total, Reaches-IsSound}
use paum_io_t.Util.Queue.Race.{dequeue_before_write}
use paum_io_t.Util.Queue.Progress.{Returns, alone-Returns}
use paum_io_t.Util.Queue.Sequential.{ended, alone-fifo}
use paum_io_t.Util.Queue.Refine.{fifo}
use paum_io_t.Util.Queue.Order.{IsValid, contents}
use paum_io_t.Util.Queue.ClearRace.{clear_within_enqueue}

-- Two slots of one byte, with one element, where the tail is about to start over.
abbrev turning : Queue
turning = record {
  buffer = (0 ∷ []) ∷ (7 ∷ []) ∷ [];
  capacity = 2;
  element_size = 1;
  mask = 1;
  head = 0;
  tail = 18446744073709551615;
  count = 1;
}

-- Nothing in it.
abbrev vacant : Queue
vacant = record turning { buffer = (0 ∷ []) ∷ (0 ∷ []) ∷ []; tail = 0; count = 0 }

abbrev calling : System
calling = record { threads = enqueue_loads (8 ∷ []) ∷ dequeue_loads ∷ []; queue = turning }

-- The threads may call queue_clear, too.
calling-IsSound : IsSound true 2 calling
unfolding total
calling-IsSound = record {
  same = refl;
  bounded = omega arith;
  expects = (tt, (tt, tt));
  balance = λ never. refl;
}

Reaches-IsSound_example : IsSound true 2 (record {
  threads = (step false (enqueue_loads (8 ∷ [])) turning).0 ∷ dequeue_loads ∷ [];
  queue = (step false (enqueue_loads (8 ∷ [])) turning).1;
})
Reaches-IsSound_example =
    Reaches-IsSound true 2 calling _ (omega arith) calling-IsSound
      (there _ _ here (moves [] (enqueue_loads (8 ∷ [])) (dequeue_loads ∷ []) turning false))

dequeue_before_write_example :
    (s : System) × Reaches false (record { threads = idle ∷ idle ∷ []; queue = vacant }) s
    × (s.threads ≡ enqueue_takes (8 ∷ []) ∷ returned success (some (zero_slot vacant)) ∷ [])
dequeue_before_write_example = dequeue_before_write vacant (8 ∷ []) refl (omega arith) refl

turning-IsValid : IsValid 1 turning
turning-IsValid = record {
  exponent = omega arith;
  power = refl;
  masked = refl;
  room = refl;
  bounded = omega arith;
  start = omega arith;
  stop = refl;
}

clear_within_enqueue_example :
    (s : System) × Reaches true (record { threads = idle ∷ idle ∷ []; queue = turning }) s
    × (s.threads ≡ returned success none ∷ cleared ∷ [])
    × (peek s.queue ≡ (queue_empty, none))
    × ((dequeue ((enqueue s.queue (9 ∷ [])).1)).1 ≡ some (8 ∷ []))
clear_within_enqueue_example =
    clear_within_enqueue 0 turning (8 ∷ []) (9 ∷ []) turning-IsValid (omega arith)

alone-fifo_example :
    ((alone 5 (starts call_dequeue) turning).0
      ≡ ended call_dequeue ((fifo 2 1 call_dequeue (contents turning)).0))
    × (contents ((alone 5 (starts call_dequeue) turning).1)
        ≡ (fifo 2 1 call_dequeue (contents turning)).1)
    × IsValid 1 ((alone 5 (starts call_dequeue) turning).1)
alone-fifo_example = alone-fifo 1 0 call_dequeue turning turning-IsValid

alone-Returns_example : Returns 5 (dequeue_exchanges 3) turning
alone-Returns_example = alone-Returns 0 (dequeue_exchanges 3) turning tt
