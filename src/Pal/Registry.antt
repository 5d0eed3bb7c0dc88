-- ===== src/Pal/Registry.antt =====
-- The adapter table as a map from protocols to adapters: `pal_register_adapter`,
-- `pal_unregister_adapter` and `pal_find_adapter` of src/pal/pal.c against a list of adapters.
use paum_io_t.Common.{
  ℕ, suc, ◌+◌, ◌-◌, ◌<◌, ◌≡◌, refl, sym, ap, ap₂, ◌∙◌, arith, true, List, [], ◌∷◌, ◌++◌, Option,
  none, some, length, get_or, set, replicate, append_assoc, if◌then◌else◌, Bool-cases, inl, inr,
  ◌⊎◌, leb,
}
use paum_io_t.World.{World, Result, ok, err, fault}
use paum_io_t.Codes.{out_of_memory, already_initialized}
use paum_io_t.Message.{Protocol, same_protocol}
use paum_io_t.Pal.{
  Adapter, Stats, Context, Outcome, pal_max_adapters, find_from, find_adapter, call, add_adapter,
  register,
}
use paum_io_t.Pal.Table.{
  entries, entries-append, length-entries, lookup, index_of, remove, find_from-index_of,
  set-length_append, get_or-length_append, length-snoc,
}

-- The context in which the adapters `xs` are registered, in this order.
abbrev pub table : List Adapter → Stats → Context
table xs stats = record {
  adapters = entries xs ++ replicate (pal_max_adapters - length xs) none;
  num_adapters = length xs;
  max_adapters = pal_max_adapters;
  initialized = true;
  stats = stats;
}

pub record Missing (p : Protocol) (xs : List Adapter) (n : ℕ) : Type 0 where
  pub at : index_of p xs n ≡ none
  pub is : lookup p xs ≡ none

pub record Found (p : Protocol) (xs : List Adapter) (n : ℕ) : Type 0 where
  pub before : List Adapter
  pub found : Adapter
  pub behind : List Adapter
  pub parts : xs ≡ before ++ (found ∷ behind)
  pub at : index_of p xs n ≡ some (n + length before)
  pub is : lookup p xs ≡ some found
  pub left : remove p xs ≡ before ++ behind

pub search_cases : (p : Protocol) (xs : List Adapter) (n : ℕ) → Missing p xs n ⊎ Found p xs n
unfolding index_of lookup remove
search_cases p [] n = inl (record { at = refl; is = refl })
search_cases p (a ∷ xs) n = elim (Bool-cases (same_protocol a.protocol_type p)) [
  | inl e ↦ inr (record {
    before = [];
    found = a;
    behind = xs;
    parts = refl;
    at = rw e (ap some (omega arith));
    is = rw e refl;
    left = rw e refl;
  })
  | inr e ↦ elim (search_cases p xs (n + 1)) [
    | inl m ↦ inl (record { at = rw e (m.at); is = rw e (m.is) })
    | inr f ↦ inr (record {
      before = a ∷ f.before;
      found = f.found;
      behind = f.behind;
      parts = ap (λ t. a ∷ t) f.parts;
      at = rw e (f.at ∙ ap some (omega arith));
      is = rw e (f.is);
      left = rw e (ap (λ t. a ∷ t) f.left);
    })
  ]
]

pub search-eq :
    (p : Protocol) (xs : List Adapter) (rest : List (Option Adapter))
    → find_from (entries xs ++ rest) p (length xs) 0 ≡ ok (index_of p xs 0)
search-eq p xs rest = find_from-index_of p [] xs rest

pub get-found :
    (before behind xs : List Adapter) (x : Adapter) (rest : List (Option Adapter)) (i : ℕ)
    → xs ≡ before ++ (x ∷ behind)
    → i ≡ length before
    → get_or (entries xs ++ rest) i none ≡ some x
get-found before behind xs x rest i e k =
    ap₂ (λ t n. get_or t n none)
      (ap (λ t. entries t ++ rest) e
        ∙ ap (λ t. t ++ rest) (entries-append before (x ∷ behind))
        ∙ append_assoc (entries before) (entries (x ∷ behind)) rest)
      (k ∙ sym (length-entries before))
    ∙ get_or-length_append (entries before) (some x) none (entries behind ++ rest)

abbrev pub free_slots : List Adapter → List (Option Adapter)
free_slots xs = replicate (pal_max_adapters - length xs) none

-- Searching the table is looking the protocol up among the registered adapters.
pub find_adapter-lookup :
    (p : Protocol) (xs : List Adapter) (stats : Stats)
    → find_adapter (table xs stats) p ≡ ok (lookup p xs)
unfolding find_adapter
find_adapter-lookup p xs stats = elim (search_cases p xs 0) [
  | inl m ↦ rw (search-eq p xs (free_slots xs), m.at, m.is) refl
  | inr f ↦
      rw (search-eq p xs (free_slots xs), f.at, f.is)
        (ap ok (get-found f.before f.behind xs f.found (free_slots xs) _ f.parts (omega arith)))
]

-- What registering an adapter does to the list of adapters.
unfoldable pub register_in : List Adapter → Stats → Adapter → World → Outcome (Unit {0})
register_in xs stats a w =
    if leb pal_max_adapters (length xs)
    then (err out_of_memory, table xs stats, w)
    else elim (lookup a.protocol_type xs) [
      | some other ↦ (err already_initialized, table xs stats, w)
      | none ↦
          let (r, w') = call a.init w in
          elim r [
            | ok _ ↦ (ok tt, table (xs ++ (a ∷ [])) stats, w')
            | err e ↦ (err e, table xs stats, w')
            | fault ↦ (fault, table xs stats, w')
          ]
    ]

add_adapter-eq :
    (xs : List Adapter) (stats : Stats) (a : Adapter)
    → length xs < pal_max_adapters
    → add_adapter (table xs stats) a ≡ table (xs ++ (a ∷ [])) stats
unfolding add_adapter
add_adapter-eq xs stats a h =
    ap₂ (λ array n. record (table xs stats) { adapters = array; num_adapters = n }) array
      (sym (length-snoc xs a))
  where
    slots : free_slots xs ≡ none ∷ free_slots (xs ++ (a ∷ []))
    slots =
        ap (λ n. replicate {A = Option Adapter} n none)
          {y = suc (pal_max_adapters - length (xs ++ (a ∷ [])))}
          (omega (arith, h, length-snoc xs a))

    array :
        set (entries xs ++ free_slots xs) (length xs) (some a)
        ≡ entries (xs ++ (a ∷ [])) ++ free_slots (xs ++ (a ∷ []))
    array =
        ap₂ (λ t n. set (entries xs ++ t) n (some a)) slots (sym (length-entries xs))
        ∙ set-length_append (entries xs) none (some a) (free_slots (xs ++ (a ∷ [])))
        ∙ sym (append_assoc (entries xs) (some a ∷ []) (free_slots (xs ++ (a ∷ []))))
        ∙ ap (λ t. t ++ free_slots (xs ++ (a ∷ []))) (sym (entries-append xs (a ∷ [])))

-- Registering an adapter adds it at the end, unless the table is full, has an adapter for the
-- protocol, or the adapter's own initialisation fails; then the table stays as it is.
pub register-eq-register_in :
    (xs : List Adapter) (stats : Stats) (a : Adapter) (w : World)
    → register (table xs stats) a w ≡ register_in xs stats a w
unfolding register register_in
register-eq-register_in xs stats a w = elim (Bool-cases (leb pal_max_adapters (length xs))) [
  | inl full ↦ rw full refl
  | inr room ↦ elim (search_cases a.protocol_type xs 0) [
    | inl m ↦
        rw (room, search-eq a.protocol_type xs (free_slots xs), m.at, m.is)
          (go (call a.init w) (add_adapter-eq xs stats a (ground arith)))
    | inr f ↦ rw (room, search-eq a.protocol_type xs (free_slots xs), f.at, f.is) refl
  ]
]
  where
    go :
        (r : Result (Unit {0}) × World)
        → add_adapter (table xs stats) a ≡ table (xs ++ (a ∷ [])) stats
        → (let (x, w') = r in
            elim x as (λ _. Outcome (Unit {0})) [
              | ok _ ↦ (ok tt, add_adapter (table xs stats) a, w')
              | err e ↦ (err e, table xs stats, w')
              | fault ↦ (fault, table xs stats, w')
            ])
          ≡ (let (x, w') = r in
              elim x as (λ _. Outcome (Unit {0})) [
                | ok _ ↦ (ok tt, table (xs ++ (a ∷ [])) stats, w')
                | err e ↦ (err e, table xs stats, w')
                | fault ↦ (fault, table xs stats, w')
              ])
    go (ok _, w') e = ap (λ c. (ok tt, c, w')) e
    go (err _, w') e = refl
    go (fault, w') e = refl
