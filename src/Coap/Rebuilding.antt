-- ===== src/Coap/Rebuilding.antt =====
-- From the parts of a parsed packet to the message that the decoder returns.
use paum_io_t.Common.{
  ℕ, ◌+◌, ◌≤◌, ◌<◌, ◌≡◌, refl, sym, ap, ◌∙◌, subst, arith, List, [], ◌∷◌, ◌++◌, Option, none, some,
  length, length-append, append_assoc, append-nil, take_all, ◌==◌, if◌then◌else◌, All, lt→ltb,
}
use paum_io_t.World.{Text, Env, Grants, World, M, ok, ◌>>=◌, return, alloc, until_nul, strdup}
use paum_io_t.World.Rules.{Ensures, Ensures-weaken}
use paum_io_t.Message.{Message}
use paum_io_t.Message.Laws.{IsExact}
use paum_io_t.Mqtt.Format.{payload_bytes}
use paum_io_t.Mqtt.Delivery.{IsText, Never, until_nul-text}
use paum_io_t.Coap.Fields.{
  slash, total_length, segment_of, append_segments, coap_build_uri_path, content_format,
  coap_get_content_type,
}
use paum_io_t.Coap.Parse.{CoapMessage}
use paum_io_t.Coap.Decode.{content_type_of, deliver}
use paum_io_t.Coap.Memory.{total_length-pos, append_segment-eq}
use paum_io_t.Coap.Making.{Says, deliver-Says}
use paum_io_t.Coap.Reading.{option_of, options_of}

-- A path with a slash before each segment.
unfoldable pub joined : List Text → Text
joined [] = []
joined (s ∷ ss) = slash ∷ (s ++ joined ss)

-- The parsed message has these options and this payload.
pub record IsParsed (type : ℕ) (ss : List Text) (bytes : Option (List ℕ)) (n : ℕ) (p : CoapMessage)
    : Type 0 where
  pub kind : p.type ≡ type
  pub path : p.options ≡ options_of ss
  pub holds : p.payload ≡ bytes
  pub size : p.payload_len ≡ n

segment_of-option_of : (s : Text) → IsText s → segment_of (option_of s) ≡ s
unfolding segment_of
segment_of-option_of s text =
    ap until_nul (take_all (length s) s (omega arith)) ∙ until_nul-text s text

-- Behind a first segment, each segment is added with its slash.
append_segments-joined :
    (size : ℕ) (ss : List Text) (path : Text)
    → All IsText ss
    → 1 < length path
    → length path + total_length (options_of ss) ≤ size
    → append_segments size (options_of ss) path ≡ ok (path ++ joined ss)
unfolding append_segments options_of joined total_length
append_segments-joined size [] path text long fits = ap ok (sym (append-nil path))
append_segments-joined size (s ∷ ss) path text long fits =
    rw
      (
        lt→ltb 1 (length path) long,
        append_segment-eq size path (slash ∷ []) (segment_of (option_of s))
            (append_segments size (options_of ss))
            (omega (arith, fits, ap length same, total_length-pos (options_of ss))),
        same,
        append_segments-joined size ss ((path ++ (slash ∷ [])) ++ s) text.1
            (omega (arith, long, longer)) (omega (arith, fits, longer)),
      )
      (ap ok (
        ap (λ t. t ++ joined ss) (append_assoc path (slash ∷ []) s)
        ∙ append_assoc path (slash ∷ s) (joined ss)))
  where
    same : segment_of (option_of s) ≡ s
    same = segment_of-option_of s text.0

    longer : length ((path ++ (slash ∷ [])) ++ s) ≡ length path + 1 + length s
    longer =
        omega
          (arith, length-append {0} (path ++ (slash ∷ [])) s, length-append {0} path (slash ∷ []))

no_content_format : (ss : List Text) → content_format (options_of ss) ≡ none
unfolding content_format options_of
no_content_format [] = refl
no_content_format (s ∷ ss) = no_content_format ss

module _ (env : Env) (grants : Grants env) where
  build_path-joined :
      (s : Text) (ss : List Text) (w : World)
      → 0 < length s
      → All IsText (s ∷ ss)
      → Ensures (λ r v. r ≡ joined (s ∷ ss)) Never (coap_build_uri_path env (options_of (s ∷ ss)) w)
  unfolding coap_build_uri_path options_of ◌>>=◌ alloc joined total_length append_segments
  build_path-joined s ss w long text =
      rw
        (
          grants w.calls,
          append_segment-eq size (slash ∷ []) [] (segment_of (option_of s))
              (append_segments size (options_of ss))
              (omega (arith, ap length same, total_length-pos (options_of ss))),
          same,
          append_segments-joined size ss (slash ∷ s) text.1 (omega (arith, long)) (omega arith),
        )
        refl
    where
      size : ℕ
      size = 1 + length s + total_length (options_of ss) + 1

      same : segment_of (option_of s) ≡ s
      same = segment_of-option_of s text.0

  content_type-none :
      (p : CoapMessage) (ss : List Text) (w : World)
      → p.options ≡ options_of ss
      → content_type_of env p w ≡ (ok none, w)
  unfolding content_type_of
  content_type-none p ss w e =
      ap
        (λ o.
          (elim o as (λ _. M (Option Text)) [
            | none ↦ return none
            | some format ↦ strdup env (coap_get_content_type format)
          ])
            w)
        (ap content_format e ∙ no_content_format ss)

  -- A message is made of a path that is not empty and of the payload.
  pub deliver_path-Says :
      (type : ℕ) (s : Text) (ss : List Text) (payload : Option (List ℕ)) (n : ℕ) (p : CoapMessage)
      (w : World)
      → 0 < length s
      → All IsText (s ∷ ss)
      → IsExact payload n
      → IsParsed type (s ∷ ss) payload n p
      → Ensures
          (λ r v. Says (joined (s ∷ ss)) (if type == 0 then 1 else 0) (payload_bytes payload) r)
          Never
          (deliver env p w)
  deliver_path-Says type s ss payload n p w long text exact parsed =
      Ensures-weaken Made After Never Never (deliver env p w)
        (deliver-Says env grants p (joined (s ∷ ss)) none w held
          (λ v. rw parsed.path (build_path-joined s ss v long text))
          (λ v. rw (content_type-none p (s ∷ ss) v parsed.path) refl))
        (λ r v k. rw (sym parsed.kind, sym parsed.holds) k.0) (λ c v k. k)
    where
      Made : Message → World → Type 0
      Made r v =
          Says (joined (s ∷ ss)) (if p.type == 0 then 1 else 0) (payload_bytes p.payload) r
          × (r.metadata.content_type ≡ none)

      After : Message → World → Type 0
      After r v = Says (joined (s ∷ ss)) (if type == 0 then 1 else 0) (payload_bytes payload) r

      held : IsExact p.payload p.payload_len
      held =
          subst (λ b. IsExact b p.payload_len) (sym parsed.holds)
            (subst (λ m. IsExact payload m) (sym parsed.size) exact)
