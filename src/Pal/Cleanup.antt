-- ===== src/Pal/Cleanup.antt =====
-- What `pal_cleanup` does to the registered adapters and to the memory.
use paum_io_t.Common.{◌-◌, refl, sym, ap}
use paum_io_t.Common.{ℕ, ◌+◌, ◌≡◌, ◌∙◌, arith, List, [], ◌∷◌, ◌++◌, Option, some, length, All}
use paum_io_t.World.{World, Result, ok, err, fault, ◌>>=◌, ◌>>◌, free}
use paum_io_t.World.Rules.{Ensures, >>=-Ensures, Ensures-weaken}
use paum_io_t.Pal.{Adapter, Stats, call, cleanup_of}
use paum_io_t.Pal.Table.{entries}
use paum_io_t.Pal.Registry.{table, free_slots}
use paum_io_t.Pal.Traffic.{void, cleanup_all, pal_cleanup}

-- An adapter whose cleanup, if it has one, returns and neither allocates nor releases a block.
abbrev pub KeepsBlocks : Adapter → Type 0
KeepsBlocks a =
    (w : World) → Ensures (λ u v. v.live ≡ w.live) (λ e v. v.live ≡ w.live) (call a.cleanup w)

-- The world after the cleanup of each of these adapters was called, in order.
abbrev pub cleaned : List Adapter → World → World
cleaned [] w = w
cleaned (a ∷ xs) w = cleaned xs (call a.cleanup w).1

void-ends :
    (n : ℕ) (r : Result (Unit {0})) (v : World)
    → Ensures (λ u x. x.live ≡ n) (λ e x. x.live ≡ n) (r, v)
    → Ensures (λ u x. (x ≡ v) × (x.live ≡ n)) (λ e x. ⊥) (void (λ _. (r, v)) v)
unfolding void
void-ends n (ok _) v h = (refl, h)
void-ends n (err e) v h = (refl, h)
void-ends n fault v h = h

cleanup_all-cleaned :
    (xs : List Adapter) (rest : List (Option Adapter)) (n : ℕ) (w : World)
    → All KeepsBlocks xs
    → w.live ≡ n
    → Ensures
        (λ u v. (v ≡ cleaned xs w) × (v.live ≡ n))
        (λ e v. ⊥)
        (cleanup_all (length xs) (entries xs ++ rest) w)
unfolding cleanup_all
cleanup_all-cleaned [] rest n w keeps h = (refl, h)
cleanup_all-cleaned (a ∷ xs) rest n w keeps h =
    >>=-Ensures (λ u v. (v ≡ (call a.cleanup w).1) × (v.live ≡ n)) After (λ e v. ⊥)
      (void (cleanup_of (some a))) (λ _. cleanup_all (length xs) (entries xs ++ rest)) w
      (void-ends n (call a.cleanup w).0 (call a.cleanup w).1 (
        Ensures-weaken (λ u v. v.live ≡ w.live) (λ u v. v.live ≡ n) (λ e v. v.live ≡ w.live)
          (λ e v. v.live ≡ n) _ (keeps.0 w) (λ u v k. k ∙ h) (λ e v k. k ∙ h)))
      (λ u v k.
        Ensures-weaken (λ u x. (x ≡ cleaned xs v) × (x.live ≡ n)) After (λ e v. ⊥) (λ e v. ⊥) _
          (cleanup_all-cleaned xs rest n v keeps.1 k.1) (λ u x g. (g.0 ∙ ap (cleaned xs) k.0, g.1))
          (λ e x g. g))
  where
    After : Unit {0} → World → Type 0
    After u v = (v ≡ cleaned (a ∷ xs) w) × (v.live ≡ n)

-- `pal_cleanup` calls the cleanup of every registered adapter once, in the order of the table, and
-- changes nothing else but for the two blocks that it releases, as many as `pal_init` allocated: the
-- array and the context. It returns whatever the cleanups answer, which are taken to return and
-- neither to allocate nor to release a block.
pub pal_cleanup-cleaned :
    (xs : List Adapter) (stats : Stats) (n : ℕ) (w : World)
    → All KeepsBlocks xs
    → w.live ≡ n + 2
    → Ensures
        (λ u v. (v ≡ record (cleaned xs w) { live = n }) × ((cleaned xs w).live ≡ n + 2))
        (λ e v. ⊥)
        (pal_cleanup (some (table xs stats)) w)
unfolding pal_cleanup
pal_cleanup-cleaned xs stats n w keeps live =
    >>=-Ensures (λ u v. (v ≡ cleaned xs w) × (v.live ≡ n + 2)) After (λ e v. ⊥)
      (cleanup_all (length xs) (entries xs ++ free_slots xs))
      (λ _. free {0} (some (entries xs)) >> free {0} (some (tt {0}))) w
      (cleanup_all-cleaned xs (free_slots xs) (n + 2) w keeps live)
      λ u v h.
        unfold ◌>>=◌ in
        (
          ap (λ k. record v { live = k }) (left v h.1)
              ∙ ap (λ (x : World). record x { live = n }) h.0,
          sym (ap (λ (x : World). x.live) h.0) ∙ h.1,
        )
  where
    After : Unit {0} → World → Type 0
    After u v = (v ≡ record (cleaned xs w) { live = n }) × ((cleaned xs w).live ≡ n + 2)

    left : (v : World) → v.live ≡ n + 2 → v.live - 1 - 1 ≡ n
    left v h = omega (arith, h)
