-- ===== src/Util/Queue/Create.antt =====
-- `queue_create`: the test for a power of two and the new queue.
use paum_io_t.Common.{
  ℕ, ◌-◌, ◌*◌, ◌/◌, ◌%◌, ◌^◌, ◌≤◌, ◌<◌, ◌≡◌, refl, ap, ◌∙◌, arith, true, [], some, length-replicate,
  replicate, ne→==_false, lt→ltb,
}
use paum_io_t.Common.Bits.{bit_and_mask, pow_pos}
use native.Mathlib.Nat.{mod_self, mod-eq_of_lt, mul-div_cancel}
use paum_io_t.Util.Queue.{Queue, is_power_of_two, queue_create}
use paum_io_t.Util.Queue.Order.{IsValid, contents, window}

pub power-is_power_of_two : (k : ℕ) → is_power_of_two (2 ^ k) ≡ true
unfolding is_power_of_two
power-is_power_of_two k =
    rw (bit_and_mask k (2 ^ k), mod_self (2 ^ k), lt→ltb 0 (2 ^ k) (pow_pos k)) refl

-- A queue that is created for 2 ^ k elements, with `k` at most 63, is valid and empty, if the memory
-- is granted and the size of the buffer in bytes is not rounded.
pub queue_create-IsValid :
    (k size : ℕ)
    → k ≤ 63
    → 0 < size
    → 2 ^ k * size < 2 ^ 64
    → (q : Queue) × (queue_create true true (2 ^ k) size ≡ some q) × IsValid k q × (contents q ≡ [])
unfolding queue_create contents window
queue_create-IsValid k size h pos small = (created, made, valid, refl)
  where
    created : Queue
    created = record {
      buffer = replicate (2 ^ k * size % 2 ^ 64 / size) (replicate size 0);
      capacity = 2 ^ k;
      element_size = size;
      mask = 2 ^ k - 1;
      head = 0;
      tail = 0;
      count = 0;
    }

    made : queue_create true true (2 ^ k) size ≡ some created
    made =
        rw
          (
            ne→==_false (2 ^ k) 0 (λ e. omega (arith, e, pow_pos k)),
            ne→==_false size 0 (λ e. omega (arith, e, pos)),
            power-is_power_of_two k,
          )
          refl

    valid : IsValid k created
    valid = record {
      exponent = h;
      power = refl;
      masked = refl;
      room =
          length-replicate (2 ^ k * size % 2 ^ 64 / size) (replicate size 0)
          ∙ ap (λ t. t / size) (mod-eq_of_lt small)
          ∙ mul-div_cancel (2 ^ k) pos;
      bounded = omega arith;
      start = omega arith;
      stop = refl;
    }
