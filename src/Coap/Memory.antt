-- ===== src/Coap/Memory.antt =====
-- The blocks and counters of the CoAP decoder, on any bytes.
use paum_io_t.Common.{
  ℕ, ◌+◌, ◌≤◌, ◌<◌, ◌≡◌, refl, subst, arith, true, false, List, [], ◌∷◌, ◌++◌, Option, none, some,
  length, length-append, length-take, take, ltb, ◌==◌, if◌then◌else◌, Bool-cases, inl, inr, lt→ltb,
}
use paum_io_t.Codes.{Code, out_of_memory}
use paum_io_t.World.{
  Text, Env, World, MqttState, CoapState, Result, ok, err, fault, ◌>>=◌, ◌>>◌, fail, lift, alloc,
  strdup, until_nul, and_then, free, freed,
}
use paum_io_t.World.Rules.{At, Ensures, >>=-Ensures}
use paum_io_t.Message.{Message, message_free}
use paum_io_t.Message.Laws.{one, blocks, message_free-At}
use paum_io_t.Coap.Fields.{
  CoapOption, slash, option_uri_path, total_length, concat, segment_of, append_segments,
  coap_build_uri_path,
}
use paum_io_t.Coap.Parse.{CoapMessage, free_values, coap_free_message}
use paum_io_t.Coap.Decode.{give_up, content_type_of}
use paum_io_t.Coap.Blocks.{value_blocks, parsed_blocks, array_block}

length-until_nul : (bytes : List ℕ) → length (until_nul bytes) ≤ length bytes
unfolding until_nul
length-until_nul [] = omega arith
length-until_nul (b ∷ bs) = ground (arith, length-until_nul bs)

length-segment_of : (o : CoapOption) → length (segment_of o) ≤ o.size
unfolding segment_of
length-segment_of o = by_value o.size o.value
  where
    by_value :
        (n : ℕ) (v : Option (List ℕ))
        → length (elim v as (λ _. Text) [ none ↦ [] | some bytes ↦ until_nul (take n bytes) ]) ≤ n
    by_value n none = omega arith
    by_value n (some bytes) = omega (arith, length-until_nul (take n bytes), length-take n bytes)

-- A value that satisfies `P`, and neither an error nor a fault.
abbrev Gives {ℓ} : {A : Type ℓ} → (A → Type 0) → Result A → Type 0
Gives P (ok a) = P a
Gives P (err e) = ⊥
Gives P fault = ⊥

pub total_length-pos : (os : List CoapOption) → 0 < total_length os
unfolding total_length
total_length-pos [] = omega arith
total_length-pos (o ∷ os) = ground (arith, total_length-pos os)

concat-eq :
    (size : ℕ) (path s : Text) → length path + length s < size → concat size path s ≡ ok (path ++ s)
unfolding concat
concat-eq size path s h = rw (lt→ltb (length path + length s) size h) refl

-- One separator and one segment are what the first loop counted.
pub append_segment-eq :
    (size : ℕ) (path separator segment : Text) (next : Text → Result Text)
    → length path + length separator + length segment < size
    → and_then (concat size path separator) (λ p. and_then (concat size p segment) next)
      ≡ next ((path ++ separator) ++ segment)
append_segment-eq size path separator segment next h =
    rw
      (
        concat-eq size path separator (omega (arith, h)),
        concat-eq size (path ++ separator) segment
            (omega (arith, h, length-append {0} path separator)),
      )
      refl

abbrev pub separator_of : Text → Text
separator_of path = if ltb 1 (length path) then slash ∷ [] else []

separator-short : (path : Text) → length (separator_of path) ≤ 1
separator-short path = ground arith

-- The path fits the block that was measured for it.
append_segments-Gives :
    (size : ℕ) (os : List CoapOption) (path : Text)
    → length path + total_length os ≤ size
    → Gives (λ p. length p < size) (append_segments size os path)
unfolding append_segments total_length
append_segments-Gives size [] path h = omega (arith, h)
append_segments-Gives size (o ∷ os) path h = elim (Bool-cases (o.number == option_uri_path)) [
  | inr e ↦ rw e (append_segments-Gives size os path (rw e at h))
  | inl e ↦
      let fits : length path + (1 + o.size + total_length os) ≤ size = rw e at h in
      rw
        (
          e,
          append_segment-eq size path (separator_of path) (segment_of o) (append_segments size os)
              (room fits),
        )
        (append_segments-Gives size os ((path ++ separator_of path) ++ segment_of o) (longer fits))
]
  where
    room :
        length path + (1 + o.size + total_length os) ≤ size
        → length path + length (separator_of path) + length (segment_of o) < size
    room fits = omega (arith, fits, length-segment_of o, separator-short path, total_length-pos os)

    longer :
        length path + (1 + o.size + total_length os) ≤ size
        → length ((path ++ separator_of path) ++ segment_of o) + total_length os ≤ size
    longer fits = omega (
      arith,
      fits,
      length-segment_of o,
      separator-short path,
      length-append {0} path (separator_of path),
      length-append {0} (path ++ separator_of path) (segment_of o),
    )

free_values-At :
    (os : List CoapOption) (k : ℕ) (m : MqttState) (c : CoapState) (w : World)
    (Q : Code → World → Type 0)
    → At (k + value_blocks os) m c w
    → Ensures (λ _ v. At k m c v) Q (free_values os w)
unfolding free_values ◌>>=◌ value_blocks
free_values-At [] k m c w Q at = ground arith
free_values-At (o ∷ os) k m c w Q at = ground (arith, free_values-At os k m c (freed o.value w) Q)

module _ (n : ℕ) (m : MqttState) (c : CoapState) where
  abbrev pub Exactly : Code → World → Type 0
  Exactly e v = At n m c v

  lift-Gives {ℓ} :
      {A : Type ℓ} (P : A → Type 0) (Q : Code → World → Type 0) (r : Result A) (w : World)
      → Gives P r
      → At n m c w
      → Ensures (λ a v. At n m c v) Q (lift r w)
  lift-Gives P Q (ok a) w g at = at
  lift-Gives P Q (err e) w g at = absurd g
  lift-Gives P Q fault w g at = g

  pub coap_free_message-At :
      (p : CoapMessage) (w : World) (Q : Code → World → Type 0)
      → At (n + parsed_blocks p) m c w
      → Ensures (λ _ v. At n m c v) Q (coap_free_message p w)
  unfolding coap_free_message
  coap_free_message-At p w Q at =
      let array : Option CoapOption = elim (p.options) [ [] ↦ none | o ∷ os ↦ some o ] in
      >>=-Ensures (λ _ v. At (n + array_block p.options + one p.payload) m c v) (λ _ v. At n m c v)
        Q (free_values p.options) (λ _. free array >> free p.payload) w
        (free_values-At p.options (n + array_block p.options + one p.payload) m c w Q
          (subst (λ t. At t m c w) (omega arith) at))
        (last p.options)
    where
      last :
          (os : List CoapOption) (u : Unit {0}) (v : World)
          → At (n + array_block os + one p.payload) m c v
          → Ensures
              (λ _ x. At n m c x)
              Q
              ((free (elim os as (λ _. Option CoapOption) [ [] ↦ none | o ∷ rest ↦ some o ])
                  >> free p.payload)
                v)
      last [] u v h = unfold ◌>>=◌ in ground arith
      last (o ∷ rest) u v h = unfold ◌>>=◌ in ground arith

  pub give_up-At {ℓ} :
      {A : Type ℓ} (P : A → World → Type 0) (msg : Message) (p : CoapMessage) (e : Code) (w : World)
      → At (n + parsed_blocks p + blocks msg) m c w
      → Ensures P Exactly (give_up msg p e w)
  unfolding give_up
  give_up-At P msg p e w at =
      >>=-Ensures (λ _ v. At (n + parsed_blocks p) m c v) P Exactly (message_free (some msg))
        (λ _. coap_free_message p >> fail e) w
        (message_free-At msg w (n + parsed_blocks p) Exactly at)
        λ _ w1 h1.
          >>=-Ensures (λ _ v. At n m c v) P Exactly (coap_free_message p) (λ _. fail e) w1
            (coap_free_message-At p w1 Exactly h1) λ _ w2 h2. h2

pub content_type-At :
    (env : Env) (p : CoapMessage) (k : ℕ) (m : MqttState) (c : CoapState) (w : World)
    (Q : Code → World → Type 0)
    → At k m c w
    → Ensures (λ r v. At (k + one r) m c v) Q (content_type_of env p w)
unfolding content_type_of strdup alloc ◌>>=◌
content_type-At env p k m c w Q at = ground arith

alloc-At :
    (env : Env) (k : ℕ) (m : MqttState) (c : CoapState) (w : World) (Q : Code → World → Type 0)
    → At k m c w
    → Ensures (λ granted v. At (k + (if granted then 1 else 0)) m c v) Q (alloc env w)
unfolding alloc
alloc-At env k m c w Q at = ground arith

pub build_path-At :
    (env : Env) (os : List CoapOption) (k : ℕ) (m : MqttState) (c : CoapState) (w : World)
    → At k m c w
    → Ensures (λ _ v. At (k + 1) m c v) (λ _ v. At k m c v) (coap_build_uri_path env os w)
unfolding coap_build_uri_path
build_path-At env [] k m c w at = at
build_path-At env (o ∷ os) k m c w at =
    >>=-Ensures (λ granted v. At (k + (if granted then 1 else 0)) m c v) (λ _ v. At (k + 1) m c v)
      (λ _ v. At k m c v) (alloc env)
      (λ granted.
        if granted
        then lift (append_segments (total_length (o ∷ os) + 1) (o ∷ os) (slash ∷ []))
        else fail out_of_memory)
      w (alloc-At env k m c w (λ _ v. At k m c v) at)
      (elim [
        | true ↦ λ v h.
            lift-Gives (k + 1) m c (λ p. length p < total_length (o ∷ os) + 1) (λ _ v. At k m c v) _
              v
              (append_segments-Gives (total_length (o ∷ os) + 1) (o ∷ os) (slash ∷ [])
                (omega arith))
              h
        | false ↦ λ v h. refused v h
      ])
  where
    refused : (v : World) → At (k + 0) m c v → At k m c v
    refused v h = record { live = omega (arith, h.live); mqtt = h.mqtt; coap = h.coap }
