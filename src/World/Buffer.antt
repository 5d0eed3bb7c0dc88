-- ===== src/World/Buffer.antt =====
-- Buffers that are filled from the front: every write stays inside.
use paum_io_t.Common.{ℕ, ◌+◌, ◌%◌, ◌≤◌, ◌<◌, ◌≡◌, arith, List, [], ◌∷◌, length, length-append}
use paum_io_t.World.{Result, ok, err, fault, and_then, store, store_all}
use paum_io_t.World.Rules.{Yields}

-- The bytes written fit, and none is taken back.
abbrev pub Grows : ℕ → List ℕ → List ℕ → Type 0
Grows size before after = (length before ≤ length after) × (length after ≤ size)

pub and_then-Yields {ℓ κ} :
    {A : Type ℓ} {B : Type κ} (P : A → Type 0) (Q : B → Type 0) (r : Result A) (f : A → Result B)
    → Yields P r
    → ((a : A) → P a → Yields Q (f a))
    → Yields Q (and_then r f)
and_then-Yields P Q (ok a) f h next = next a h
and_then-Yields P Q (err e) f h next = tt
and_then-Yields P Q fault f h next = h

pub store-Grows :
    (size b : ℕ) (out : List ℕ)
    → length out < size
    → Yields (λ o. (length o ≡ length out + 1) × (length o ≤ size)) (store size b out)
unfolding store
store-Grows size b out h = ground (arith, length-append {0} out ((b % 256) ∷ []))

pub store_all-Grows :
    (size : ℕ) (bytes before out : List ℕ)
    → length before ≤ length out
    → length out + length bytes ≤ size
    → Yields (λ o. Grows size before o) (store_all size bytes out)
unfolding store_all
store_all-Grows size bytes before out h k = ground (arith, length-append {0} out bytes)
