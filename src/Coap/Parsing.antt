-- ===== src/Coap/Parsing.antt =====
-- The blocks that the CoAP parser allocates for a whole packet, on any bytes.
use paum_io_t.Common.{
  subst, ℕ, zero, suc, ◌+◌, ◌-◌, ◌/◌, ◌≤◌, ◌<◌, ◌≡◌, arith, false, not, List, [], ◌∷◌, ◌++◌, length,
  length-take, drop, ltb, ◌==◌, bit_and, inl, inr,
}
use paum_io_t.Codes.{packet_malformed, invalid_param, protocol_violation}
use paum_io_t.World.{Env, World, MqttState, CoapState, ◌>>=◌, lift, read, slice}
use paum_io_t.World.Rules.{At, Ensures, Yields, >>=-Ensures}
use paum_io_t.Message.Laws.{one, IsExact}
use paum_io_t.Mqtt.Bounds.{read-eq-ok, slice-eq-ok}
use paum_io_t.Coap.Fields.{CoapOption}
use paum_io_t.Coap.Parse.{
  CoapMessage, decode_options, decode_payload, decode_body, coap_decode_message,
}
use paum_io_t.Coap.Blocks.{
  value_blocks, option_blocks, parsed_blocks, Failed, Behind, option_blocks-snoc, at_option-lt,
  at_payload-lt, lift-Over, fail_if-Over, take_bytes-At, decode_option-At,
}

module _ (n : ℕ) (m : MqttState) (c : CoapState) where
  decode_options-At :
      (env : Env) (fuel : ℕ) (packet : List ℕ) (pos prev : ℕ) (options : List CoapOption)
      (w : World)
      → pos ≤ length packet
      → length packet < pos + fuel
      → At (n + option_blocks options) m c w
      → Ensures
          (λ r v. At (n + option_blocks r.0) m c v × (r.1 ≤ length packet))
          (Failed n m c)
          (decode_options env fuel packet pos prev options w)
  unfolding decode_options
  decode_options-At env zero packet pos prev options w h enough at =
      absurd (omega (arith, h, enough))
  decode_options-At env (suc fuel) packet pos prev options w h enough at =
      elim (at_option-lt env packet pos) [
        | inr e ↦ rw e (at, h)
        | inl (e, below) ↦ rw e (
            >>=-Ensures (Behind n m c packet pos (length options) (n + option_blocks options))
              (λ r v. At (n + option_blocks r.0) m c v × (r.1 ≤ length packet)) (Failed n m c) _ _ w
              (decode_option-At n m c env packet pos prev (length options)
                (n + option_blocks options) w below (omega arith) at)
              λ r v k.
                decode_options-At env fuel packet r.1 _ (options ++ (r.0 ∷ [])) v k.1.1
                  (omega (arith, k.1.0, enough))
                  (subst (λ t. At t m c v) (omega (arith, option_blocks-snoc options r.0)) k.0))
      ]

  decode_payload-At :
      (env : Env) (packet : List ℕ) (pos k : ℕ) (w : World)
      → pos ≤ length packet
      → n ≤ k
      → At k m c w
      → Ensures
          (λ r v. At (k + one r.0) m c v × IsExact r.0 r.1)
          (Failed n m c)
          (decode_payload env packet pos w)
  unfolding decode_payload ◌>>=◌
  decode_payload-At env packet pos k w h le at = elim (at_payload-lt env packet pos) [
    | inl (e, below) ↦
        rw e
          (ground (arith, take_bytes-At n m c env packet (pos + 1) (length packet - (pos + 1)) k w))
    | inr e ↦ rw e (ground arith)
  ]

  -- What holds of a message that was parsed.
  abbrev pub Parsed : CoapMessage → World → Type 0
  Parsed p v =
      At (n + parsed_blocks p) m c v × (IsExact p.payload p.payload_len × (length p.token ≤ 8))

  decode_body-At :
      (env : Env) (packet : List ℕ) (version type token_len code message_id : ℕ) (w : World)
      → token_len ≤ 8
      → At n m c w
      → Ensures Parsed
          (Failed n m c)
          (decode_body env packet version type token_len code message_id w)
  unfolding decode_body value_blocks
  decode_body-At env packet version type token_len code message_id w short at =
      >>=-Ensures (λ _ v. At n m c v × (ltb (length packet) (4 + token_len) ≡ false)) Parsed
        (Failed n m c) _ _ w
        (fail_if-Over n m c (ltb (length packet) (4 + token_len)) packet_malformed n w (omega arith)
          at)
        λ _ w1 h1.
          >>=-Ensures (λ token v. At n m c v × (length token ≤ 8)) Parsed (Failed n m c) _ _ w1
            (lift-Over n m c (λ token. length token ≤ 8) (slice packet 4 token_len) n w1
              (omega arith) h1.0 (token (inside h1.1)))
            λ token w2 h2.
              >>=-Ensures (λ r v. At (n + option_blocks r.0) m c v × (r.1 ≤ length packet)) Parsed
                (Failed n m c) _ _ w2
                (decode_options-At env (suc (length packet)) packet (4 + token_len) 0 [] w2
                  (inside h1.1) (omega arith) (subst (λ t. At t m c w2) (omega arith) h2.0))
                λ r w3 h3.
                  >>=-Ensures (λ q v. At (n + option_blocks r.0 + one q.0) m c v × IsExact q.0 q.1)
                    Parsed (Failed n m c) _ _ w3
                    (decode_payload-At env packet r.1 _ w3 h3.1 (omega arith) h3.0)
                    λ q w4 h4. (subst (λ t. At t m c w4) (omega arith) h4.0, (h4.1, h2.1))
    where
      inside : ltb (length packet) (4 + token_len) ≡ false → 4 + token_len ≤ length packet
      inside e = ground arith

      token :
          4 + token_len ≤ length packet
          → Yields (λ token. length token ≤ 8) (slice packet 4 token_len)
      token fits =
          rw (slice-eq-ok packet 4 token_len fits)
            (omega (arith, short, length-take token_len (drop 4 packet)))

  pub coap_decode_message-At :
      (env : Env) (packet : List ℕ) (w : World)
      → At n m c w
      → Ensures Parsed (Failed n m c) (coap_decode_message env packet w)
  unfolding coap_decode_message
  coap_decode_message-At env packet w at =
      >>=-Ensures (λ _ v. At n m c v × (ltb (length packet) 4 ≡ false)) Parsed (Failed n m c) _ _ w
        (fail_if-Over n m c (ltb (length packet) 4) invalid_param n w (omega arith) at)
        λ _ w1 h1.
          >>=-Ensures (λ _ v. At n m c v × Unit {0}) Parsed (Failed n m c) _ _ w1
            (byte 0 w1 h1.0 (long h1.1 0 (omega arith)))
            λ b w2 h2.
              >>=-Ensures (λ _ v. At n m c v × (not (bit_and (b / 64) 0x03 == 1) ≡ false)) Parsed
                (Failed n m c) _ _ w2
                (fail_if-Over n m c (not (bit_and (b / 64) 0x03 == 1)) protocol_violation n w2
                  (omega arith) h2.0)
                λ _ w3 h3.
                  >>=-Ensures (λ _ v. At n m c v × (ltb 8 (bit_and b 0x0f) ≡ false)) Parsed
                    (Failed n m c) _ _ w3
                    (fail_if-Over n m c (ltb 8 (bit_and b 0x0f)) packet_malformed n w3 (omega arith)
                      h3.0)
                    λ _ w4 h4.
                      >>=-Ensures (λ _ v. At n m c v × Unit {0}) Parsed (Failed n m c) _ _ w4
                        (byte 1 w4 h4.0 (long h1.1 1 (omega arith)))
                        λ code w5 h5.
                          >>=-Ensures (λ _ v. At n m c v × Unit {0}) Parsed (Failed n m c) _ _ w5
                            (byte 2 w5 h5.0 (long h1.1 2 (omega arith)))
                            λ hi w6 h6.
                              >>=-Ensures (λ _ v. At n m c v × Unit {0}) Parsed (Failed n m c) _ _
                                w6 (byte 3 w6 h6.0 (long h1.1 3 (omega arith)))
                                λ lo w7 h7.
                                  decode_body-At env packet _ _ (bit_and b 0x0f) _ _ w7
                                    (small _ _ h4.1) h7.0
    where
      small : (i k : ℕ) → ltb i k ≡ false → k ≤ i
      small i k e = ground arith

      long : ltb (length packet) 4 ≡ false → (i : ℕ) → i < 4 → i < length packet
      long h i k = ground arith

      byte :
          (i : ℕ) (v : World)
          → At n m c v
          → i < length packet
          → Ensures (λ _ u. At n m c u × Unit {0}) (Failed n m c) (lift (read packet i) v)
      byte i v a h =
          lift-Over n m c (λ _. Unit {0}) (read packet i) n v (omega arith) a
            (rw (read-eq-ok packet i h) tt)
