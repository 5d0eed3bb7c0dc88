-- ===== src/Coap/ReadPath.antt =====
-- The path that the decoder makes of any options.
use paum_io_t.Common.{
  ℕ, ◌+◌, ◌≤◌, ◌<◌, ◌≡◌, refl, sym, ap, ◌∙◌, subst, arith, true, false, List, [], ◌∷◌, ◌++◌, length,
  length-append, append_assoc, append-nil, take_all, ◌==◌, if◌then◌else◌, All, lt→ltb, Bool-cases,
  inl, inr,
}
use paum_io_t.World.{Text, ok, until_nul}
use paum_io_t.Mqtt.Delivery.{IsText, until_nul-text}
use paum_io_t.Coap.Fields.{slash, option_uri_path, total_length, segment_of, append_segments}
use paum_io_t.Coap.Memory.{total_length-pos, append_segment-eq, separator_of}
use paum_io_t.Coap.Format.{NumberedValue, option_from, options_from}
use paum_io_t.Coap.Rebuilding.{joined}

-- The values of the Uri-Path options, in order.
unfoldable pub path_values : List NumberedValue → List Text
path_values [] = []
path_values ((number, value) ∷ os) =
    let rest = path_values os in if number == option_uri_path then value ∷ rest else rest

-- The path of these segments: a slash before each, but none for empty segments in front.
unfoldable pub path_text : List Text → Text
path_text [] = slash ∷ []
path_text ([] ∷ ss) = path_text ss
path_text ((c ∷ cs) ∷ ss) = joined ((c ∷ cs) ∷ ss)

segment_of-option_from : (number : ℕ) (s : Text) → IsText s → segment_of (option_from number s) ≡ s
unfolding segment_of until_nul
segment_of-option_from number [] text = refl
segment_of-option_from number (c ∷ cs) text =
    ap until_nul (take_all (length (c ∷ cs)) (c ∷ cs) (omega arith)) ∙ until_nul-text (c ∷ cs) text

-- Either the option is a segment of the path, and its slash and characters are counted, or it is not.
data IsSegment (number : ℕ) (value : Text) (os : List NumberedValue) : Type 0 where
  segment :
      (number == option_uri_path) ≡ true
      → path_values ((number, value) ∷ os) ≡ value ∷ path_values os
      → total_length (options_from ((number, value) ∷ os))
        ≡ 1 + length value + total_length (options_from os)
      → IsSegment number value os
  other :
      (number == option_uri_path) ≡ false
      → path_values ((number, value) ∷ os) ≡ path_values os
      → total_length (options_from ((number, value) ∷ os)) ≡ total_length (options_from os)
      → IsSegment number value os

any-IsSegment : (number : ℕ) (value : Text) (os : List NumberedValue) → IsSegment number value os
any-IsSegment number value os = elim (Bool-cases (number == option_uri_path)) [
  | inl e ↦
      segment e (unfold path_values in rw e refl)
        (unfold total_length in unfold options_from in rw e refl)
  | inr e ↦
      other e (unfold path_values in rw e refl)
        (unfold total_length in unfold options_from in rw e refl)
]

module _ (size number : ℕ) (value : Text) (os : List NumberedValue) (path : Text) where
  append-other :
      (number == option_uri_path) ≡ false
      → append_segments size (options_from ((number, value) ∷ os)) path
        ≡ append_segments size (options_from os) path
  unfolding append_segments options_from
  append-other e = rw e refl

  append-segment :
      (number == option_uri_path) ≡ true
      → IsText value
      → length path + length (separator_of path) + length value < size
      → append_segments size (options_from ((number, value) ∷ os)) path
        ≡ append_segments size (options_from os) ((path ++ separator_of path) ++ value)
  unfolding append_segments options_from
  append-segment e text fits =
      rw
        (
          e,
          append_segment-eq size path (separator_of path) (segment_of (option_from number value))
              (append_segments size (options_from os))
              (omega (arith, fits, ap length (segment_of-option_from number value text))),
          segment_of-option_from number value text,
        )
        refl

-- Behind a first segment, each segment is added with its slash.
append-joined :
    (size : ℕ) (os : List NumberedValue) (path : Text)
    → All IsText (path_values os)
    → 1 < length path
    → length path + total_length (options_from os) ≤ size
    → append_segments size (options_from os) path ≡ ok (path ++ joined (path_values os))
append-joined size [] path text long fits =
    unfold append_segments in
    unfold options_from in unfold joined in unfold path_values in ap ok (sym (append-nil path))
append-joined size ((number, value) ∷ os) path text long fits =
    elim (any-IsSegment number value os) [
      | other e values total ↦
          append-other size number value os path e
          ∙ append-joined size os path (subst (All IsText) values text) long
              (omega (arith, fits, total))
          ∙ ap (λ ss. ok (path ++ joined ss)) (sym values)
      | segment e values total ↦
          let texts = subst (All IsText) values text in
          let slashed : separator_of path ≡ slash ∷ [] = rw (lt→ltb 1 (length path) long) refl in
          append-segment size number value os path e texts.0
            (omega (arith, fits, total, ap length slashed, total_length-pos (options_from os)))
          ∙ ap (λ s. append_segments size (options_from os) ((path ++ s) ++ value)) slashed
          ∙ append-joined size os ((path ++ (slash ∷ [])) ++ value) texts.1
              (omega (arith, long, longer)) (omega (arith, fits, total, longer))
          ∙ ap ok (
              ap (λ r. r ++ joined (path_values os)) (append_assoc path (slash ∷ []) value)
              ∙ append_assoc path (slash ∷ value) (joined (path_values os))
              ∙ unfold joined in ap (λ ss. path ++ joined ss) (sym values))
    ]
  where
    longer : length ((path ++ (slash ∷ [])) ++ value) ≡ length path + 1 + length value
    longer =
        omega (
          arith,
          length-append {0} (path ++ (slash ∷ [])) value,
          length-append {0} path (slash ∷ []),
        )

-- A segment that is added to the slash, if the others are added as they should.
append-first :
    (size : ℕ) (os : List NumberedValue) (s : Text)
    → All IsText (s ∷ path_values os)
    → append_segments size (options_from os) (slash ∷ []) ≡ ok (path_text (path_values os))
    → 1 + length s + total_length (options_from os) ≤ size
    → append_segments size (options_from os) (slash ∷ s) ≡ ok (path_text (s ∷ path_values os))
unfolding path_text joined
append-first size os [] texts next fits = next
append-first size os (c ∷ cs) texts next fits =
    append-joined size os (slash ∷ (c ∷ cs)) texts.1 (omega arith) (omega (arith, fits))

-- The first segment that is not empty stands behind the slash that is there.
pub append-path_text :
    (size : ℕ) (os : List NumberedValue)
    → All IsText (path_values os)
    → 1 + total_length (options_from os) ≤ size
    → append_segments size (options_from os) (slash ∷ []) ≡ ok (path_text (path_values os))
append-path_text size [] text fits =
    unfold append_segments in unfold options_from in unfold path_text in unfold path_values in refl
append-path_text size ((number, value) ∷ os) text fits = elim (any-IsSegment number value os) [
  | other e values total ↦
      append-other size number value os (slash ∷ []) e
      ∙ append-path_text size os (subst (All IsText) values text) (omega (arith, fits, total))
      ∙ ap (λ ss. ok (path_text ss)) (sym values)
  | segment e values total ↦
      let texts = subst (All IsText) values text in
      append-segment size number value os (slash ∷ []) e texts.0
        (omega (arith, fits, total, total_length-pos (options_from os)))
      ∙ append-first size os value texts
          (append-path_text size os texts.1 (omega (arith, fits, total)))
          (omega (arith, fits, total))
      ∙ ap (λ ss. ok (path_text ss)) (sym values)
]
