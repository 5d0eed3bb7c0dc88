-- ===== src/Pal/Removal.antt =====
-- Taking an adapter out of the table, and the laws of the map that the table is.
use paum_io_t.Common.{
  ℕ, suc, ◌+◌, ◌-◌, ◌≤◌, ◌≡◌, refl, sym, ap, ap₂, ◌∙◌, arith, List, ◌∷◌, ◌++◌, Option, none, some,
  length, length-append, set, replicate, append_assoc, inl, inr,
}
use paum_io_t.World.{World, Result, ok, err, fault}
use paum_io_t.Codes.{protocol_unknown}
use paum_io_t.Message.{Protocol}
use paum_io_t.Pal.{
  Adapter, Stats, Context, Outcome, pal_max_adapters, call, shift_down, remove_adapter, cleanup_of,
  unregister,
}
use paum_io_t.Pal.Table.{
  entries, entries-append, length-entries, lookup, remove, shift_down-append, set-length_append,
}
use paum_io_t.Pal.Registry.{table, free_slots, search_cases, search-eq, get-found}

-- What removing an adapter does to the list of adapters. An error of its own cleanup is not passed on.
unfoldable pub unregister_in : List Adapter → Stats → Protocol → World → Outcome (Unit {0})
unregister_in xs stats p w = elim (lookup p xs) [
  | none ↦ (err protocol_unknown, table xs stats, w)
  | some a ↦
      let (r, w') = call a.cleanup w in
      elim r [
        | ok _ ↦ (ok tt, table (remove p xs) stats, w')
        | err e ↦ (ok tt, table (remove p xs) stats, w')
        | fault ↦ (fault, table xs stats, w')
      ]
]

length-parts :
    (before behind : List Adapter) (x : Adapter)
    → length (before ++ (x ∷ behind)) ≡ length before + length behind + 1
length-parts before behind x = omega (arith, length-append before (x ∷ behind))

closed-array :
    (before behind : List Adapter) (x : Adapter) (rest : List (Option Adapter))
    → set
        (shift_down (entries (before ++ (x ∷ behind)) ++ rest) (length behind) (length before))
        (length before + length behind)
        none
      ≡ entries (before ++ behind) ++ (none ∷ rest)
closed-array before behind x rest =
    ap₂ (λ t n. set t n none)
      (ap₂ (λ t i. shift_down t (length behind) i)
          (ap (λ t. t ++ rest) (entries-append before (x ∷ behind))
            ∙ append_assoc (entries before) (entries (x ∷ behind)) rest)
          (sym (length-entries before))
        ∙ ap
            (λ n.
              shift_down (entries before ++ (some x ∷ (entries behind ++ rest))) n
                (length (entries before)))
            (sym (length-entries behind))
        ∙ shifted.1
        ∙ sym (append_assoc (entries before) (entries behind) (shifted.0 ∷ rest))
        ∙ ap (λ t. t ++ (shifted.0 ∷ rest)) (sym (entries-append before behind)))
      end
    ∙ set-length_append (entries (before ++ behind)) shifted.0 none rest
  where
    end : length before + length behind ≡ length (entries (before ++ behind))
    end = sym (length-entries (before ++ behind) ∙ length-append before behind)

    shifted :
        (last : Option Adapter) × (shift_down
            (entries before ++ (some x ∷ (entries behind ++ rest)))
            (length (entries behind))
            (length (entries before))
          ≡ entries before ++ (entries behind ++ (last ∷ rest)))
    shifted = shift_down-append (entries before) (some x) (entries behind) rest

remove_adapter-eq :
    (before behind xs : List Adapter) (x : Adapter) (stats : Stats) (i : ℕ)
    → xs ≡ before ++ (x ∷ behind)
    → i ≡ length before
    → length xs ≤ pal_max_adapters
    → remove_adapter (table xs stats) i ≡ table (before ++ behind) stats
unfolding remove_adapter
remove_adapter-eq before behind xs x stats i e k h =
    ap₂ (λ array n. record (table xs stats) { adapters = array; num_adapters = n }) array less
  where
    size : length xs ≡ length before + length behind + 1
    size = ap length e ∙ length-parts before behind x

    less : length xs - 1 ≡ length (before ++ behind)
    less = omega (arith, size, length-append before behind)

    slots : none ∷ free_slots xs ≡ free_slots (before ++ behind)
    slots =
        ap (λ n. replicate {A = Option Adapter} n none) {x = suc (pal_max_adapters - length xs)}
          (omega (arith, h, size, length-append before behind))

    rounds : length xs - 1 - i ≡ length behind
    rounds = omega (arith, size, k)

    last : length xs - 1 ≡ length before + length behind
    last = omega (arith, size)

    array :
        set (shift_down (entries xs ++ free_slots xs) (length xs - 1 - i) i) (length xs - 1) none
        ≡ entries (before ++ behind) ++ free_slots (before ++ behind)
    array =
        ap₂ (λ r n. set (shift_down (entries xs ++ free_slots xs) r i) n none) rounds last
        ∙ ap₂
            (λ t j.
              set (shift_down (entries t ++ free_slots xs) (length behind) j)
                (length before + length behind) none)
            e k
        ∙ closed-array before behind x (free_slots xs)
        ∙ ap (λ t. entries (before ++ behind) ++ t) slots

-- What is left after the adapter's own cleanup.
abbrev taken : Context → List Adapter → Stats → Result (Unit {0}) × World → Outcome (Unit {0})
taken left xs stats r = elim (r.0) [
  | ok _ ↦ (ok tt, left, r.1)
  | err e ↦ (ok tt, left, r.1)
  | fault ↦ (fault, table xs stats, r.1)
]

taken-eq :
    {there left : Context} (xs : List Adapter) (stats : Stats) (r : Result (Unit {0}) × World)
    → there ≡ left
    → taken there xs stats r ≡ taken left xs stats r
taken-eq xs stats r e = ap (λ c. taken c xs stats r) e

-- In a table of at most 16 adapters, removing the one for a protocol calls its cleanup and takes it
-- out of the list, and the adapters behind it keep their order. A protocol that has no adapter is an error.
pub unregister-eq-unregister_in :
    (xs : List Adapter) (stats : Stats) (p : Protocol) (w : World)
    → length xs ≤ pal_max_adapters
    → unregister (table xs stats) p w ≡ unregister_in xs stats p w
unfolding unregister unregister_in
unregister-eq-unregister_in xs stats p w h = elim (search_cases p xs 0) [
  | inl m ↦ rw (search-eq p xs (free_slots xs), m.at, m.is, unregister_in) refl
  | inr f ↦
      rw (search-eq p xs (free_slots xs), f.at, f.is, unregister_in)
        (ap
            (λ (o : Option Adapter).
              taken (remove_adapter (table xs stats) (0 + length f.before)) xs stats
                (cleanup_of o w))
            (get-found f.before f.behind xs f.found (free_slots xs) (0 + length f.before) f.parts
              (omega arith))
          ∙ unfold cleanup_of in
            taken-eq xs stats (call f.found.cleanup w) (
              remove_adapter-eq f.before f.behind xs f.found stats (0 + length f.before) f.parts
                (omega arith) h
              ∙ ap (λ t. table t stats) (sym f.left)))
]
