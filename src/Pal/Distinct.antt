-- ===== src/Pal/Distinct.antt =====
-- The laws of the map from protocols to adapters that the table is.
use paum_io_t.Common.{
  ◌≤◌, ◌≡◌, refl, ap, ◌∙◌, subst, arith, true, false, List, [], ◌∷◌, ◌++◌, none, some, length,
  if◌then◌else◌, Bool-cases, inl, inr,
}
use paum_io_t.Message.{Protocol, same_protocol}
use paum_io_t.Pal.{Adapter}
use paum_io_t.Pal.Table.{lookup, remove, same_protocol→eq, same_protocol_refl}

-- No two adapters are for the same protocol.
unfoldable pub IsDistinct : List Adapter → Type 0
IsDistinct [] = Unit {0}
IsDistinct (a ∷ xs) = (lookup a.protocol_type xs ≡ none) × IsDistinct xs

pub lookup-append :
    (p : Protocol) (xs : List Adapter) (a : Adapter)
    → lookup p xs ≡ none
    → lookup p (xs ++ (a ∷ [])) ≡ (if same_protocol a.protocol_type p then some a else none)
unfolding lookup
lookup-append p [] a h = refl
lookup-append p (x ∷ xs) a h = ground (arith, lookup-append p xs a)

lookup-remove-none :
    (p q : Protocol) (xs : List Adapter) → lookup q xs ≡ none → lookup q (remove p xs) ≡ none
unfolding lookup remove
lookup-remove-none p q [] h = refl
lookup-remove-none p q (x ∷ xs) h = ground (arith, lookup-remove-none p q xs)

same_protocol_sym : (p q : Protocol) → same_protocol p q ≡ true → same_protocol q p ≡ true
same_protocol_sym p q e =
    subst (λ r. same_protocol r p ≡ true) (same_protocol→eq p q e) (same_protocol_refl p)

-- After a removal there is no adapter for the protocol, since there was at most one.
pub lookup-remove :
    (p : Protocol) (xs : List Adapter) → IsDistinct xs → lookup p (remove p xs) ≡ none
unfolding lookup remove IsDistinct
lookup-remove p [] d = refl
lookup-remove p (x ∷ xs) d = elim (Bool-cases (same_protocol x.protocol_type p)) [
  | inl e ↦ rw e (subst (λ q. lookup q xs ≡ none) (same_protocol→eq _ p e) d.0)
  | inr e ↦ rw (e, remove, e) (lookup-remove p xs d.1)
]

none-cons :
    (q : Protocol) (x : Adapter) (xs : List Adapter)
    → lookup q (x ∷ xs) ≡ none
    → (same_protocol x.protocol_type q ≡ false) × (lookup q xs ≡ none)
unfolding lookup
none-cons q x xs h = ground arith

differ : (p q : Protocol) → same_protocol p q ≡ false → same_protocol q p ≡ false
differ p q e = ground (arith, same_protocol_sym q p)

pub IsDistinct-append :
    (xs : List Adapter) (a : Adapter)
    → IsDistinct xs
    → lookup a.protocol_type xs ≡ none
    → IsDistinct (xs ++ (a ∷ []))
unfolding IsDistinct lookup
IsDistinct-append [] a d h = (refl, tt)
IsDistinct-append (x ∷ xs) a d h =
    let (apart, absent) = none-cons a.protocol_type x xs h in
    (
      lookup-append x.protocol_type xs a d.0
          ∙ ap (λ b. if b then some a else none) (differ x.protocol_type a.protocol_type apart),
      IsDistinct-append xs a d.1 absent,
    )

pub remove-IsDistinct :
    (p : Protocol) (xs : List Adapter) → IsDistinct xs → IsDistinct (remove p xs)
unfolding IsDistinct remove
remove-IsDistinct p [] d = tt
remove-IsDistinct p (x ∷ xs) d = elim (Bool-cases (same_protocol x.protocol_type p)) [
  | inl e ↦ rw e (d.1)
  | inr e ↦ rw e (lookup-remove-none p x.protocol_type xs d.0, remove-IsDistinct p xs d.1)
]

pub length-remove : (p : Protocol) (xs : List Adapter) → length (remove p xs) ≤ length xs
unfolding remove
length-remove p [] = omega arith
length-remove p (x ∷ xs) = ground (arith, length-remove p xs)
