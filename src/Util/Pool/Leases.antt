-- ===== src/Util/Pool/Leases.antt =====
-- The blocks that a pool has handed out and not got back, over any sequence of calls.
use paum_io_t.Common.{ℕ, ◌+◌, ◌≡◌, ◌≢◌, List, [], ◌∷◌, ◌++◌, none, some, All, length}
use paum_io_t.Util.Pool.{Pool, alloc, free, reset}
use paum_io_t.Util.Pool.Blocks.{IsBlock, IsFree, IsValid}

-- No element stands in the list twice.
abbrev pub Apart : List ℕ → Type 0
Apart [] = Unit {0}
Apart (b ∷ bs) = All (λ c. c ≢ b) bs × Apart bs

-- A pool and the blocks that its callers hold, from a pool that is valid and has every block. A
-- caller gives back only what it holds, or what is no block. After `reset` nobody holds a block.
pub data Lends (start : Pool) : Pool → List ℕ → Type 0 where
  starts : Lends start start []
  allocates :
      (p : Pool) (held : List ℕ) (b : ℕ)
      → Lends start p held
      → (alloc p).0 ≡ some b
      → Lends start ((alloc p).1) (b ∷ held)
  refuses :
      (p : Pool) (held : List ℕ)
      → Lends start p held
      → (alloc p).0 ≡ none
      → Lends start ((alloc p).1) held
  frees :
      (p : Pool) (before : List ℕ) (b : ℕ) (behind : List ℕ)
      → Lends start p (before ++ (b ∷ behind))
      → Lends start (free p b) (before ++ behind)
  resets : (p : Pool) (held : List ℕ) → Lends start p held → Lends start (reset p) []
  ignores :
      (p : Pool) (held : List ℕ) (b : ℕ)
      → Lends start p held
      → ¬ (IsBlock p b)
      → Lends start (free p b) held

-- What holds of the pool and the blocks that are held.
pub record IsLent (p : Pool) (held : List ℕ) : Type 0 where
  pub valid : IsValid p
  pub blocks : All (IsBlock p) held
  pub taken : All (λ b. ¬ (IsFree p b)) held
  pub apart : Apart held
  pub total : p.free_count + length held ≡ p.num_blocks
