-- ===== src/Util/Queue/Order.antt =====
-- The queue as a bounded first-in, first-out sequence.
use paum_io_t.Common.{
  ℕ, zero, suc, ◌+◌, ◌-◌, ◌*◌, ◌/◌, ◌%◌, ◌^◌, ◌≤◌, ◌<◌, ◌≡◌, refl, sym, ap, ap₂, ◌∙◌, subst, arith,
  List, [], ◌∷◌, ◌++◌, length, length-set, take, get_or, set, bit_and, get_or-set_self,
  get_or-set_ne, ◌≢◌, dec_lt,
}
use paum_io_t.Common.Bits.{bit_and_mask, pow_pos, pow_add, pow_le}
use native.Mathlib.Nat.{
  mod-add-mod, mul_assoc, mod-eq-sub-mod, mod-lt, add-mul-mod_self_right, mod-eq_of_lt,
}
use paum_io_t.Util.Queue.{Slot, Queue, add_size, zero_slot, slot_index}

-- A queue of 2 ^ k slots; `tail` to `head` hold `count` elements, on a 64-bit circle.
pub record IsValid (k : ℕ) (q : Queue) : Type 0 where
  pub exponent : k ≤ 63
  pub power : q.capacity ≡ 2 ^ k
  pub masked : q.mask ≡ 2 ^ k - 1
  pub room : length q.buffer ≡ 2 ^ k
  pub bounded : q.count ≤ 2 ^ k
  pub start : q.tail < 2 ^ 64
  pub stop : q.head ≡ (q.tail + q.count) % 2 ^ 64

-- The capacity of a valid queue is a `size_t`.
pub capacity-lt : (k : ℕ) (q : Queue) → IsValid k q → q.capacity < 2 ^ 64
capacity-lt k q v = omega (arith, v.power, pow_le k (63 - k), ap (λ t. 2 ^ t) top)
  where
    top : k + (63 - k) ≡ 63
    top = omega (arith, v.exponent)

-- The slots from `position` on, the oldest first.
unfoldable pub window : List Slot → ℕ → ℕ → ℕ → List Slot
window buffer size position zero = []
window buffer size position (suc n) =
    get_or buffer (position % size) [] ∷ window buffer size (position + 1) n

-- What the queue holds.
unfoldable pub contents : Queue → List Slot
unfolding window
contents q = window q.buffer q.capacity q.tail q.count

mod_power : (k a : ℕ) → k ≤ 63 → a % 2 ^ 64 % 2 ^ k ≡ a % 2 ^ k
mod_power k a h =
    sym (add-mul-mod_self_right (a % 2 ^ 64) (a / 2 ^ 64 * 2 ^ (64 - k)) (2 ^ k))
    ∙ ap (λ t. t % 2 ^ k)
        (omega
          (arith, mul_assoc (a / 2 ^ 64) (2 ^ (64 - k)) (2 ^ k), ap (λ t. a / 2 ^ 64 * t) whole))
  where
    whole : 2 ^ (64 - k) * 2 ^ k ≡ 2 ^ 64
    whole = pow_add (64 - k) k 64 (omega (arith, h))

-- Only the position's place on the circle matters.
window_turn :
    (buffer : List Slot) (size a b n : ℕ)
    → a % size ≡ b % size
    → window buffer size a n ≡ window buffer size b n
unfolding window
window_turn buffer size a b zero e = refl
window_turn buffer size a b (suc n) e =
    ap₂ (λ x y. get_or buffer x [] ∷ y) e
      (window_turn buffer size (a + 1) (b + 1) n
        (sym (mod-add-mod a size 1) ∙ ap (λ t. (t + 1) % size) e ∙ mod-add-mod b size 1))

-- One more slot at the end of the window.
window_end :
    (buffer : List Slot) (size a n : ℕ)
    → window buffer size a (suc n)
      ≡ window buffer size a n ++ (get_or buffer ((a + n) % size) [] ∷ [])
unfolding window
window_end buffer size a zero = ap (λ i. get_or buffer (i % size) [] ∷ []) (omega arith)
window_end buffer size a (suc n) =
    ap (λ xs. get_or buffer (a % size) [] ∷ xs)
      (window_end buffer size (a + 1) n
        ∙ ap (λ i. window buffer size (a + 1) n ++ (get_or buffer (i % size) [] ∷ []))
            (omega arith))

-- Places less than a turn apart are different.
apart : (size a d : ℕ) → 0 < d → d < size → a % size ≢ (a + d) % size
apart size a d h k e = elim (dec_lt (a % size + d) size) [
  | yes inside ↦ absurd (omega (arith, e, sum, mod-eq_of_lt inside))
  | no outside ↦ absurd (
      omega (
        arith,
        e,
        sum,
        mod-lt a {m = size} (omega arith),
        outside,
        mod-eq-sub-mod {n = a % size + d} {m = size} (omega (arith, outside)),
        mod-eq_of_lt {n = a % size + d - size} {m = size}
            (omega (arith, mod-lt a {m = size} (omega arith))),
      ))
]
  where
    sum : (a % size + d) % size ≡ (a + d) % size
    sum = mod-add-mod a size d

-- A slot outside the window does not matter.
window-set :
    (buffer : List Slot) (size a n at : ℕ) (v : Slot)
    → ((i : ℕ) → i < n → at ≢ (a + i) % size)
    → window (set buffer at v) size a n ≡ window buffer size a n
unfolding window
window-set buffer size a zero at v h = refl
window-set buffer size a (suc n) at v h =
    ap₂ (λ x y. x ∷ y)
      (get_or-set_ne buffer v [] (λ e. h 0 (omega arith) (e ∙ ap (λ t. t % size) (omega arith))))
      (window-set buffer size (a + 1) n at v
        (λ i k e. h (i + 1) (omega arith) (e ∙ ap (λ t. t % size) (omega arith))))

pub length-window : (buffer : List Slot) (size a n : ℕ) → length (window buffer size a n) ≡ n
unfolding window
length-window buffer size a zero = refl
length-window buffer size a (suc n) = ap suc (length-window buffer size (a + 1) n)

-- What `enqueue` and `dequeue` leave when they succeed.
abbrev pub enqueued : Queue → List ℕ → Queue
enqueued q x = record q {
  buffer = set q.buffer (slot_index q q.head) (take q.element_size x);
  count = q.count + 1;
  head = add_size q.head 1;
}

abbrev pub dequeued : Queue → Queue
dequeued q = record q {
  buffer = set q.buffer (slot_index q q.tail) (zero_slot q);
  count = q.count - 1;
  tail = add_size q.tail 1;
}

module _ (k : ℕ) (q : Queue) (v : IsValid k q) where
  index-eq : (i : ℕ) → slot_index q i ≡ i % q.capacity
  index-eq i = ap (bit_and i) v.masked ∙ bit_and_mask k i ∙ ap (λ t. i % t) (sym v.power)

  -- The slot that `head` points to is the first one behind the window.
  head-eq : slot_index q q.head ≡ (q.tail + q.count) % q.capacity
  head-eq =
      ap (slot_index q) v.stop
      ∙ index-eq _
      ∙ ap (λ t. (q.tail + q.count) % 2 ^ 64 % t) v.power
      ∙ mod_power k (q.tail + q.count) v.exponent
      ∙ ap (λ t. (q.tail + q.count) % t) (sym v.power)

  pub enqueued-contents :
      (x : List ℕ)
      → q.count < 2 ^ k
      → contents (enqueued q x) ≡ contents q ++ (take q.element_size x ∷ [])
  unfolding contents
  enqueued-contents x h =
      ap
        (λ n.
          window (set q.buffer (slot_index q q.head) (take q.element_size x)) q.capacity q.tail n)
        more
      ∙ window_end (set q.buffer (slot_index q q.head) (take q.element_size x)) q.capacity q.tail
          q.count
      ∙ ap₂ (λ xs y. xs ++ (y ∷ [])) old new
    where
      more : q.count + 1 ≡ suc q.count
      more = omega arith

      stored : List Slot
      stored = set q.buffer (slot_index q q.head) (take q.element_size x)

      old : window stored q.capacity q.tail q.count ≡ window q.buffer q.capacity q.tail q.count
      old = window-set q.buffer q.capacity q.tail q.count _ _ (λ i j e.
          apart q.capacity (q.tail + i) (q.count - i) (omega (arith, j)) (omega (arith, h, v.power))
            (sym e ∙ head-eq ∙ ap (λ t. t % q.capacity) (split i j)))
        where
          split : (i : ℕ) → i < q.count → q.tail + q.count ≡ q.tail + i + (q.count - i)
          split i j = omega (arith, j)

      new : get_or stored ((q.tail + q.count) % q.capacity) [] ≡ take q.element_size x
      new =
          ap (λ i. get_or stored i []) (sym head-eq)
          ∙ get_or-set_self q.buffer (slot_index q q.head) _ [] (
              subst (λ t. t < length q.buffer) (sym head-eq)
                (omega (
                  arith,
                  v.power,
                  v.room,
                  pow_pos k,
                  mod-lt (q.tail + q.count) {m = q.capacity} (omega (arith, v.power, pow_pos k)),
                )))

  pub enqueued-IsValid : (x : List ℕ) → q.count < 2 ^ k → IsValid k (enqueued q x)
  enqueued-IsValid x h = record {
    exponent = v.exponent;
    power = v.power;
    masked = v.masked;
    room = length-set q.buffer (slot_index q q.head) (take q.element_size x) ∙ v.room;
    bounded = omega (arith, h);
    start = v.start;
    stop = ap (λ t. (t + 1) % 2 ^ 64) v.stop ∙ omega arith;
  }

  pub dequeued-contents :
      0 < q.count → contents q ≡ get_or q.buffer (slot_index q q.tail) [] ∷ contents (dequeued q)
  unfolding contents
  dequeued-contents h =
      ap (window q.buffer q.capacity q.tail) less
      ∙ unfold window in ap₂ (λ i xs. get_or q.buffer i [] ∷ xs) (sym (index-eq q.tail)) (sym kept)
    where
      less : q.count ≡ suc (q.count - 1)
      less = omega (arith, h)

      cleared : List Slot
      cleared = set q.buffer (slot_index q q.tail) (zero_slot q)

      turn : (q.tail + 1) % 2 ^ 64 % q.capacity ≡ (q.tail + 1) % q.capacity
      turn =
          ap (λ t. (q.tail + 1) % 2 ^ 64 % t) v.power
          ∙ mod_power k (q.tail + 1) v.exponent
          ∙ ap (λ t. (q.tail + 1) % t) (sym v.power)

      kept :
          window cleared q.capacity ((q.tail + 1) % 2 ^ 64) (q.count - 1)
          ≡ window q.buffer q.capacity (q.tail + 1) (q.count - 1)
      kept =
          window_turn cleared q.capacity _ _ (q.count - 1) turn
          ∙ window-set q.buffer q.capacity (q.tail + 1) (q.count - 1) _ _ (λ i j e.
            apart q.capacity q.tail (i + 1) (omega arith) (omega (arith, j, v.bounded, v.power))
              (sym (index-eq q.tail) ∙ e ∙ ap (λ t. t % q.capacity) (shift i)))
        where
          shift : (i : ℕ) → q.tail + 1 + i ≡ q.tail + (i + 1)
          shift i = omega arith

  pub dequeued-IsValid : 0 < q.count → IsValid k (dequeued q)
  dequeued-IsValid h = record {
    exponent = v.exponent;
    power = v.power;
    masked = v.masked;
    room = length-set q.buffer (slot_index q q.tail) (zero_slot q) ∙ v.room;
    bounded = omega (arith, v.bounded);
    start = mod-lt (q.tail + 1) (omega arith);
    stop =
        v.stop
        ∙ ap (λ t. t % 2 ^ 64) together
        ∙ sym (mod-add-mod (q.tail + 1) (2 ^ 64) (q.count - 1));
  }
    where
      together : q.tail + q.count ≡ q.tail + 1 + (q.count - 1)
      together = omega (arith, h)
