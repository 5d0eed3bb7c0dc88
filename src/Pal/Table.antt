-- ===== src/Pal/Table.antt =====
-- The adapter array as a list: what searching it and closing a gap in it do.
use paum_io_t.Common.{
  ℕ, suc, ◌+◌, ◌≡◌, refl, sym, ap, ap₂, ◌∙◌, subst, arith, true, List, [], ◌∷◌, ◌++◌, map, Option,
  none, some, length, length-append, get_or, get_elem?, set, append_assoc, ◌==◌, if◌then◌else◌,
  ==→eq, eq→==,
}
use paum_io_t.World.{ok}
use paum_io_t.Message.{
  Protocol, unknown, mqtt, coap, http, websocket, custom, protocol_value, same_protocol,
}
use paum_io_t.Pal.{Adapter, find_from, shift_down}

module _ {ℓ} {A : Type ℓ} where
  pub set-length_append :
      (xs : List A) (x v : A) (ys : List A) → set (xs ++ (x ∷ ys)) (length xs) v ≡ xs ++ (v ∷ ys)
  set-length_append [] x v ys = refl
  set-length_append (y ∷ xs) x v ys = ap (λ t. y ∷ t) (set-length_append xs x v ys)

  get_elem?-length_append :
      (xs : List A) (y : A) (ys : List A) → get_elem? (xs ++ (y ∷ ys)) (length xs) ≡ some y
  get_elem?-length_append [] y ys = refl
  get_elem?-length_append (x ∷ xs) y ys = get_elem?-length_append xs y ys

  pub get_or-length_append :
      (xs : List A) (y d : A) (ys : List A) → get_or (xs ++ (y ∷ ys)) (length xs) d ≡ y
  get_or-length_append [] y d ys = refl
  get_or-length_append (x ∷ xs) y d ys = get_or-length_append xs y d ys

  pub length-snoc : (xs : List A) (x : A) → length (xs ++ (x ∷ [])) ≡ length xs + 1
  length-snoc xs x = length-append xs (x ∷ [])

-- The registered adapters as entries of the array.
abbrev pub entries : List Adapter → List (Option Adapter)
entries xs = map some xs

pub entries-append : (xs ys : List Adapter) → entries (xs ++ ys) ≡ entries xs ++ entries ys
entries-append [] ys = refl
entries-append (x ∷ xs) ys = ap (λ t. some x ∷ t) (entries-append xs ys)

pub length-entries : (xs : List Adapter) → length (entries xs) ≡ length xs
length-entries [] = refl
length-entries (x ∷ xs) = ap suc (length-entries xs)

-- The first adapter for a protocol, its index, and the list without it.
unfoldable pub lookup : Protocol → List Adapter → Option Adapter
lookup p [] = none
lookup p (a ∷ xs) =
    let rest = lookup p xs in if same_protocol a.protocol_type p then some a else rest

unfoldable pub index_of : Protocol → List Adapter → ℕ → Option ℕ
index_of p [] i = none
index_of p (a ∷ xs) i =
    let rest = index_of p xs (i + 1) in if same_protocol a.protocol_type p then some i else rest

unfoldable pub remove : Protocol → List Adapter → List Adapter
remove p [] = []
remove p (a ∷ xs) =
    let rest = remove p xs in if same_protocol a.protocol_type p then xs else a ∷ rest

protocol_of : ℕ → Protocol
protocol_of n =
    if n == 0
    then unknown
    else if n == 1
    then mqtt
    else if n == 2
    then coap
    else if n == 3
    then http
    else if n == 4
    then websocket
    else custom

protocol_of-protocol_value : (p : Protocol) → protocol_of (protocol_value p) ≡ p
unfolding protocol_value protocol_of
protocol_of-protocol_value unknown = refl
protocol_of-protocol_value mqtt = refl
protocol_of-protocol_value coap = refl
protocol_of-protocol_value http = refl
protocol_of-protocol_value websocket = refl
protocol_of-protocol_value custom = refl

pub same_protocol→eq : (p q : Protocol) → same_protocol p q ≡ true → p ≡ q
unfolding same_protocol
same_protocol→eq p q e =
    sym (protocol_of-protocol_value p)
    ∙ ap protocol_of (==→eq (protocol_value p) (protocol_value q) e)
    ∙ protocol_of-protocol_value q

pub same_protocol_refl : (p : Protocol) → same_protocol p p ≡ true
unfolding same_protocol
same_protocol_refl p = eq→== (protocol_value p) (protocol_value p) refl

-- The loop of the search reads only registered entries.
pub find_from-index_of :
    (p : Protocol) (before : List (Option Adapter)) (xs : List Adapter)
    (rest : List (Option Adapter))
    → find_from (before ++ (entries xs ++ rest)) p (length xs) (length before)
      ≡ ok (index_of p xs (length before))
unfolding find_from index_of
find_from-index_of p before [] rest = refl
find_from-index_of p before (a ∷ xs) rest = ground (
  arith,
  get_elem?-length_append before (some a) (entries xs ++ rest),
  next (find_from-index_of p (before ++ (some a ∷ [])) xs rest),
)
  where
    next :
        find_from
            ((before ++ (some a ∷ [])) ++ (entries xs ++ rest))
            p
            (length xs)
            (length (before ++ (some a ∷ [])))
          ≡ ok (index_of p xs (length (before ++ (some a ∷ []))))
        → find_from (before ++ (some a ∷ (entries xs ++ rest))) p (length xs) (length before + 1)
          ≡ ok (index_of p xs (length before + 1))
    next h =
        subst
          (λ n.
            find_from (before ++ (some a ∷ (entries xs ++ rest))) p (length xs) n
            ≡ ok (index_of p xs n))
          (length-snoc before (some a))
          (subst
            (λ t.
              find_from t p (length xs) (length (before ++ (some a ∷ [])))
              ≡ ok (index_of p xs (length (before ++ (some a ∷ [])))))
            (append_assoc before (some a ∷ []) (entries xs ++ rest)) h)

-- Closing the gap at an entry: the ones behind it move down.
pub shift_down-append :
    (before : List (Option Adapter)) (x : Option Adapter) (ys rest : List (Option Adapter))
    → (last : Option Adapter) × (shift_down
          (before ++ (x ∷ (ys ++ rest)))
          (length ys)
          (length before)
        ≡ before ++ (ys ++ (last ∷ rest)))
unfolding shift_down
shift_down-append before x [] rest = (x, refl)
shift_down-append before x (y ∷ ys) rest =
    let (last, e) = shift_down-append (before ++ (y ∷ [])) y ys rest in
    (last, unroll ∙ e ∙ append_assoc before (y ∷ []) (ys ++ (last ∷ rest)))
  where
    get_or-next : get_or (before ++ (x ∷ (y ∷ (ys ++ rest)))) (length before + 1) none ≡ y
    get_or-next =
        subst (λ n. get_or (before ++ (x ∷ (y ∷ (ys ++ rest)))) n none ≡ y) (length-snoc before x)
          (subst (λ t. get_or t (length (before ++ (x ∷ []))) none ≡ y)
            (append_assoc before (x ∷ []) (y ∷ (ys ++ rest)))
            (get_or-length_append (before ++ (x ∷ [])) y none (ys ++ rest)))

    unroll :
        shift_down (before ++ (x ∷ (y ∷ (ys ++ rest)))) (suc (length ys)) (length before)
        ≡ shift_down
            ((before ++ (y ∷ [])) ++ (y ∷ (ys ++ rest)))
            (length ys)
            (length (before ++ (y ∷ [])))
    unroll =
        ap₂ (λ t n. shift_down t (length ys) n)
          (ap (set (before ++ (x ∷ (y ∷ (ys ++ rest)))) (length before)) get_or-next
            ∙ set-length_append before x y (y ∷ (ys ++ rest))
            ∙ sym (append_assoc before (y ∷ []) (y ∷ (ys ++ rest))))
          (sym (length-snoc before y))
