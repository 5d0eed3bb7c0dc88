-- ===== src/Coap/Blocks.antt =====
-- The blocks that the CoAP parser allocates for an option, on any bytes.
use paum_io_t.Common.{◌⊎◌, inl, inr, dec_lt, Bool-cases, le→ltb_false, lt→ltb, get_or}
use paum_io_t.Common.{
  ℕ, ◌+◌, ◌≤◌, ◌<◌, ◌≡◌, refl, arith, Bool, true, false, not, ◌&&◌, List, [], ◌∷◌, ◌++◌, length,
  length-take, length-drop, drop, ltb, ◌==◌, if◌then◌else◌,
}
use paum_io_t.Codes.{Code, packet_malformed, out_of_memory}
use paum_io_t.World.{
  Env, World, MqttState, CoapState, Result, ok, err, fault, ◌>>=◌, fail_if, lift, read, alloc,
}
use paum_io_t.World.Rules.{At, Ensures, Yields, >>=-Ensures}
use paum_io_t.Message.Laws.{one, IsExact}
use paum_io_t.Mqtt.Bounds.{read-eq-ok, slice-eq-ok}
use paum_io_t.Coap.Fields.{CoapOption, coap_decode_option_ext}
use paum_io_t.Coap.Parse.{
  CoapMessage, realloc_options, take_bytes, decode_option, at_option, at_payload,
}

-- The blocks of the options' values, and the array's.
unfoldable pub value_blocks : List CoapOption → ℕ
value_blocks [] = 0
value_blocks (o ∷ os) = one o.value + value_blocks os

abbrev pub array_block : List CoapOption → ℕ
array_block [] = 0
array_block (o ∷ os) = 1

abbrev pub option_blocks : List CoapOption → ℕ
option_blocks os = array_block os + value_blocks os

-- What `coap_free_message` releases.
abbrev pub parsed_blocks : CoapMessage → ℕ
parsed_blocks p = option_blocks p.options + one p.payload

-- At least `n` blocks are allocated, and the adapters' states are given.
pub record Over (n : ℕ) (m : MqttState) (c : CoapState) (w : World) : Type 0 where
  pub live : n ≤ w.live
  pub mqtt : w.mqtt ≡ m
  pub coap : w.coap ≡ c

value_blocks-snoc :
    (os : List CoapOption) (o : CoapOption)
    → value_blocks (os ++ (o ∷ [])) ≡ value_blocks os + one o.value
unfolding value_blocks
value_blocks-snoc [] o = omega arith
value_blocks-snoc (x ∷ os) o = omega (arith, value_blocks-snoc os o)

-- The block that `realloc` makes is the array's.
pub option_blocks-snoc :
    (os : List CoapOption) (o : CoapOption)
    → option_blocks (os ++ (o ∷ []))
      ≡ option_blocks os + (if length os == 0 then 1 else 0) + one o.value
unfolding value_blocks
option_blocks-snoc [] o = omega arith
option_blocks-snoc (x ∷ os) o = ground (arith, value_blocks-snoc os o)

option_ext-Yields :
    (packet : List ℕ) (pos nibble : ℕ)
    → Yields (λ r. (pos ≤ r.1) × (r.1 ≤ length packet)) (coap_decode_option_ext packet pos nibble)
unfolding coap_decode_option_ext
option_ext-Yields packet pos nibble =
    ground (arith, read-eq-ok packet pos, read-eq-ok packet (pos + 1))

-- The test of the option loop, and that of the payload, read only a byte that is there.
pub at_option-lt :
    (env : Env) (packet : List ℕ) (pos : ℕ)
    → ((at_option env packet pos ≡ ok true) × (pos < length packet))
      ⊎ (at_option env packet pos ≡ ok false)
unfolding at_option
at_option-lt env packet pos = elim (dec_lt pos (length packet)) [
  | no h ↦ inr (rw (le→ltb_false pos (length packet) (omega (arith, h))) refl)
  | yes h ↦
      rw (lt→ltb pos (length packet) h, read-eq-ok packet pos h)
        (elim (Bool-cases (get_or packet pos 0 == 255)) [
          | inl e ↦ inr (rw e refl)
          | inr e ↦ inl (rw e refl, h)
        ])
]

pub at_payload-lt :
    (env : Env) (packet : List ℕ) (pos : ℕ)
    → ((at_payload env packet pos ≡ ok true) × (pos < length packet))
      ⊎ (at_payload env packet pos ≡ ok false)
unfolding at_payload
at_payload-lt env packet pos = elim (dec_lt pos (length packet)) [
  | no h ↦ inr (rw (le→ltb_false pos (length packet) (omega (arith, h))) refl)
  | yes h ↦
      rw (lt→ltb pos (length packet) h, read-eq-ok packet pos h)
        (elim (Bool-cases (get_or packet pos 0 == 255)) [
          | inr e ↦ inr (rw e refl)
          | inl e ↦ inl (rw e refl, h)
        ])
]

module _ (n : ℕ) (m : MqttState) (c : CoapState) where
  abbrev pub Failed : Code → World → Type 0
  Failed e v = Over n m c v

  pub lift-Over {ℓ} :
      {A : Type ℓ} (P : A → Type 0) (r : Result A) (k : ℕ) (w : World)
      → n ≤ k
      → At k m c w
      → Yields P r
      → Ensures (λ a v. At k m c v × P a) Failed (lift r w)
  lift-Over P (ok a) k w le h y = (h, y)
  lift-Over P (err e) k w le h y = record {
    live = omega (arith, le, h.live);
    mqtt = h.mqtt;
    coap = h.coap;
  }
  lift-Over P fault k w le h y = y

  pub fail_if-Over :
      (b : Bool) (e : Code) (k : ℕ) (w : World)
      → n ≤ k
      → At k m c w
      → Ensures (λ a v. At k m c v × (b ≡ false)) Failed (fail_if b e w)
  fail_if-Over true e k w le h = record {
    live = omega (arith, le, h.live);
    mqtt = h.mqtt;
    coap = h.coap;
  }
  fail_if-Over false e k w le h = (h, refl)

  pub take_bytes-At :
      (env : Env) (packet : List ℕ) (pos size k : ℕ) (w : World)
      → pos + size ≤ length packet
      → n ≤ k
      → At k m c w
      → Ensures
          (λ r v. At (k + one r) m c v × IsExact r size)
          Failed
          (take_bytes env packet pos size w)
  unfolding take_bytes ◌>>=◌ alloc
  take_bytes-At env packet pos size k w fits le h = ground (
    arith,
    slice-eq-ok packet pos size,
    length-take size (drop pos packet),
    length-drop pos packet,
  )

  realloc-At :
      (env : Env) (count k : ℕ) (w : World)
      → At k m c w
      → Ensures
          (λ granted v. At (k + (if granted && count == 0 then 1 else 0)) m c v)
          Failed
          (realloc_options env count w)
  unfolding realloc_options
  realloc-At env count k w h = ground arith

  -- The position behind an option, and the blocks that it took.
  abbrev pub Behind : List ℕ → ℕ → ℕ → ℕ → CoapOption × ℕ → World → Type 0
  Behind packet pos count k r v =
      At (k + (if count == 0 then 1 else 0) + one r.0.value) m c v
      × ((pos < r.1) × (r.1 ≤ length packet))

  pub decode_option-At :
      (env : Env) (packet : List ℕ) (pos prev count k : ℕ) (w : World)
      → pos < length packet
      → n ≤ k
      → At k m c w
      → Ensures (Behind packet pos count k) Failed (decode_option env packet pos prev count w)
  unfolding decode_option
  decode_option-At env packet pos prev count k w h le at =
      let After : CoapOption × ℕ → World → Type 0 = Behind packet pos count k in
      >>=-Ensures (λ _ v. At k m c v × Unit {0}) After Failed _ _ w
        (lift-Over (λ _. Unit {0}) (read packet pos) k w le at (rw (read-eq-ok packet pos h) tt))
        λ header w1 h1.
          >>=-Ensures (λ r v. At k m c v × ((pos + 1 ≤ r.1) × (r.1 ≤ length packet))) After Failed _
            _ w1
            (lift-Over (λ r. (pos + 1 ≤ r.1) × (r.1 ≤ length packet)) _ k w1 le h1.0
              (option_ext-Yields packet (pos + 1) _))
            λ delta w2 h2.
              >>=-Ensures (λ r v. At k m c v × ((delta.1 ≤ r.1) × (r.1 ≤ length packet))) After
                Failed _ _ w2
                (lift-Over (λ r. (delta.1 ≤ r.1) × (r.1 ≤ length packet)) _ k w2 le h2.0
                  (option_ext-Yields packet delta.1 _))
                λ size w3 h3.
                  >>=-Ensures (λ _ v. At k m c v × (ltb (length packet) (size.1 + size.0) ≡ false))
                    After Failed _ _ w3
                    (fail_if-Over (ltb (length packet) (size.1 + size.0)) packet_malformed k w3 le
                      h3.0)
                    λ _ w4 h4.
                      >>=-Ensures
                        (λ granted v. At (k + (if granted && count == 0 then 1 else 0)) m c v) After
                        Failed _ _ w4 (realloc-At env count k w4 h4.0)
                        λ granted w5 h5.
                          >>=-Ensures (λ _ v. At (k + (if count == 0 then 1 else 0)) m c v) After
                            Failed _ _ w5 (array granted w5 h5)
                            λ _ w6 h6.
                              >>=-Ensures
                                (λ r v.
                                  At (k + (if count == 0 then 1 else 0) + one r) m c v
                                  × IsExact r size.0)
                                After Failed _ _ w6
                                (take_bytes-At env packet size.1 size.0 _ w6
                                  (inside (size.1 + size.0) h4.1) (omega (arith, le)) h6)
                                λ value w7 h7. (
                                  h7.0,
                                  (omega (arith, h2.1.0, h3.1.0), inside (size.1 + size.0) h4.1),
                                )
    where
      inside : (i : ℕ) → ltb (length packet) i ≡ false → i ≤ length packet
      inside i e = ground arith

      array :
          (granted : Bool) (v : World)
          → At (k + (if granted && count == 0 then 1 else 0)) m c v
          → Ensures
              (λ _ u. At (k + (if count == 0 then 1 else 0)) m c u)
              Failed
              (fail_if (not granted) out_of_memory v)
      array true v a = a
      array false v a = record { live = omega (arith, le, a.live); mqtt = a.mqtt; coap = a.coap }
