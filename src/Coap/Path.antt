-- ===== src/Coap/Path.antt =====
-- The segments of a destination, described apart from the loop of the encoder.
use paum_io_t.Common.{
  ℕ, suc, ◌<◌, ◌≡◌, refl, ap, arith, false, List, [], ◌∷◌, Option, none, some, length, ◌==◌,
  if◌then◌else◌, Bool-cases, inl, inr, All,
}
use paum_io_t.World.{Text}
use paum_io_t.Coap.Fields.{slash}
use paum_io_t.Coap.Encode.{split_segment, strip_slash}

-- The texts between the slashes: the first one, and the others.
unfoldable pub fields : Text → Text × List Text
fields [] = ([], [])
fields (c ∷ cs) = let r = fields cs in if c == slash then ([], r.0 ∷ r.1) else (c ∷ r.0, r.1)

unfoldable pub non_empty : List Text → List Text
non_empty [] = []
non_empty ([] ∷ ss) = non_empty ss
non_empty ((c ∷ cs) ∷ ss) = (c ∷ cs) ∷ non_empty ss

abbrev pub all_fields : Text → List Text
all_fields path = (fields path).0 ∷ (fields path).1

-- A path's segments, without the empty ones.
abbrev pub segments : Text → List Text
segments path = non_empty (all_fields path)

-- The fields behind a slash, if there is one.
abbrev pub fields_behind : Option Text → List Text
fields_behind none = []
fields_behind (some path) = all_fields path

pub split_segment-fields :
    (path : Text)
    → ((split_segment path).0 ≡ (fields path).0)
      × (fields_behind (split_segment path).1 ≡ (fields path).1)
unfolding split_segment fields
split_segment-fields [] = (refl, refl)
split_segment-fields (c ∷ cs) = ground (arith, split_segment-fields cs)

-- A length limit that a missing text keeps too.
abbrev pub Shorter : ℕ → Option Text → Type 0
Shorter n none = Unit
Shorter n (some path) = length path < n

pub split_segment-Shorter : (path : Text) → Shorter (length path) (split_segment path).1
unfolding split_segment
split_segment-Shorter [] = tt
split_segment-Shorter (c ∷ cs) = elim (Bool-cases (c == slash)) [
  | inl e ↦ rw e (omega arith)
  | inr e ↦ rw e (longer (split_segment cs).1 (split_segment-Shorter cs))
]
  where
    longer : (o : Option Text) → Shorter (length cs) o → Shorter (suc (length cs)) o
    longer none h = tt
    longer (some path) h = omega (arith, h)

-- A slash at the front adds an empty field.
pub segments-strip_slash : (path : Text) → segments (strip_slash path) ≡ segments path
unfolding strip_slash non_empty fields
segments-strip_slash [] = refl
segments-strip_slash (c ∷ cs) = elim (Bool-cases (c == slash)) [
  | inl e ↦ rw e refl
  | inr e ↦ ap segments (kept e)
]
  where
    kept : (c == slash) ≡ false → strip_slash (c ∷ cs) ≡ c ∷ cs
    kept e = rw e refl

-- No segment is empty.
pub segments-long : (ss : List Text) → All (λ s. 0 < length s) (non_empty ss)
unfolding non_empty
segments-long [] = tt
segments-long ([] ∷ ss) = segments-long ss
segments-long ((c ∷ cs) ∷ ss) = (omega arith, segments-long ss)

module _ (P : ℕ → Type 0) where
  fields-All : (path : Text) → All P path → All P (fields path).0 × All (All P) (fields path).1
  unfolding fields
  fields-All [] h = (tt, tt)
  fields-All (c ∷ cs) h = elim (Bool-cases (c == slash)) [
    | inl e ↦ rw e (tt, fields-All cs h.1)
    | inr e ↦ rw e ((h.0, (fields-All cs h.1).0), (fields-All cs h.1).1)
  ]

  non_empty-All : (ss : List Text) → All (All P) ss → All (All P) (non_empty ss)
  unfolding non_empty
  non_empty-All [] h = tt
  non_empty-All ([] ∷ ss) h = non_empty-All ss h.1
  non_empty-All ((c ∷ cs) ∷ ss) h = (h.0, non_empty-All ss h.1)

  -- The characters of the segments are characters of the path.
  pub segments-All : (path : Text) → All P path → All (All P) (segments path)
  segments-All path h = non_empty-All (all_fields path) (fields-All path h)

  strip : (path : Text) → All P path → All P (strip_slash path)
  unfolding strip_slash
  strip [] h = tt
  strip (c ∷ cs) h = elim (Bool-cases (c == slash)) [ inl e ↦ rw e h.1 | inr e ↦ rw e h ]
