-- ===== src/Coap/ReadOptions.antt =====
-- The CoAP parser on the options and the payload of a packet that is laid out as Coap.Format says.
use paum_io_t.Common.{
  ℕ, zero, suc, ◌+◌, ◌-◌, ◌*◌, ◌≤◌, ◌<◌, ◌≡◌, refl, sym, ap, ap₂, ◌∙◌, subst, arith, true, false,
  List, [], ◌∷◌, ◌++◌, Option, none, some, length, length-append, append_assoc, append-nil, lt→ltb,
  le→ltb_false, ne→==_false,
}
use paum_io_t.Mqtt.Bounds.{read-eq-ok}
use paum_io_t.World.{Env, Grants, World, M, Result, ok, err, fault, slice}
use paum_io_t.Codes.{Code}
use paum_io_t.World.Rules.{Ensures, >>=-Ensures}
use paum_io_t.Message.Laws.{IsExact}
use paum_io_t.Mqtt.Delivery.{Never}
use paum_io_t.Coap.Fields.{CoapOption}
use paum_io_t.Coap.Parse.{at_option, decode_option, decode_options, at_payload, decode_payload}
use paum_io_t.Coap.Extension.{nibble}
use paum_io_t.Coap.Layout.{nibble-small}
use paum_io_t.Coap.Blocks.{option_blocks, Behind, Failed, option_blocks-snoc, decode_option-At}
use paum_io_t.Coap.Written.{marked_bytes}
use paum_io_t.Coap.Format.{
  NumberedValue, content, bytes_of, options_bytes, option_from, options_from, last_number,
  IsReadable,
}
use paum_io_t.Coap.ReadOption.{get_or-at, slice-inside, take_bytes-granted, decode_option-reads}

-- Every option has a byte at least.
length-le-options_bytes :
    (prev : ℕ) (os : List NumberedValue) → length os ≤ length (options_bytes prev os)
unfolding options_bytes
length-le-options_bytes prev [] = omega arith
length-le-options_bytes prev ((number, value) ∷ os) = omega (
  arith,
  length-le-options_bytes number os,
  length-append {0} (bytes_of prev number value) (options_bytes number os),
)

module _ (env : Env) (grants : Grants env) where
  -- What holds of the answer, and what holds of the blocks.
  Ensures-both :
      (P R : CoapOption × ℕ → World → Type 0) (Q F : Code → World → Type 0) (f : M (CoapOption × ℕ))
      (w : World)
      → Ensures P Never (f w)
      → Ensures R F (f w)
      → Ensures (λ r v. P r v × R r v) Q (f w)
  Ensures-both P R Q F f w = both (f w).0 (f w).1
    where
      both :
          (x : Result (CoapOption × ℕ)) (v : World)
          → Ensures P Never (x, v)
          → Ensures R F (x, v)
          → Ensures (λ r u. P r u × R r u) Q (x, v)
      both (ok a) v p r = (p, r)
      both (err e) v p r = absurd p
      both fault v p r = p

  pub at_option-header :
      (before : List ℕ) (b : ℕ) (rest : List ℕ)
      → b < 255
      → at_option env (before ++ (b ∷ rest)) (length before) ≡ ok true
  unfolding at_option
  at_option-header before b rest h =
      let below : length before < length (before ++ (b ∷ rest)) =
        omega (arith, length-append {0} before (b ∷ rest)) in
      rw
        (
          lt→ltb (length before) (length (before ++ (b ∷ rest))) below,
          read-eq-ok (before ++ (b ∷ rest)) (length before) below,
          get_or-at before b rest 0,
          ne→==_false b 255 (λ e. omega (arith, e, h)),
        )
        refl

  at_option-end :
      (before : List ℕ) (p : Option (List ℕ))
      → at_option env (before ++ marked_bytes p) (length before) ≡ ok false
  unfolding at_option
  at_option-end before none =
      rw (append-nil before, le→ltb_false (length before) (length before) (omega arith)) refl
  at_option-end before (some xs) =
      let below : length before < length (before ++ (0xff ∷ xs)) =
        omega (arith, length-append {0} before (0xff ∷ xs)) in
      rw
        (
          lt→ltb (length before) (length (before ++ (0xff ∷ xs))) below,
          read-eq-ok (before ++ (0xff ∷ xs)) (length before) below,
          get_or-at before 0xff xs 0,
        )
        refl

  at_payload-end : (before : List ℕ) → at_payload env before (length before) ≡ ok false
  unfolding at_payload
  at_payload-end before = rw (le→ltb_false (length before) (length before) (omega arith)) refl

  at_payload-marker :
      (before xs : List ℕ) → at_payload env (before ++ (0xff ∷ xs)) (length before) ≡ ok true
  unfolding at_payload
  at_payload-marker before xs =
      let below : length before < length (before ++ (0xff ∷ xs)) =
        omega (arith, length-append {0} before (0xff ∷ xs)) in
      rw
        (
          lt→ltb (length before) (length (before ++ (0xff ∷ xs))) below,
          read-eq-ok (before ++ (0xff ∷ xs)) (length before) below,
          get_or-at before 0xff xs 0,
        )
        refl

  -- The loop gets through the options and goes on behind them.
  pub decode_options-continues :
      (P : List CoapOption × ℕ → World → Type 0) (Q : Code → World → Type 0) (fuel : ℕ)
      (before : List ℕ) (prev : ℕ) (os : List NumberedValue) (tail : List ℕ)
      (options : List CoapOption) (w : World)
      → IsReadable prev os tail
      → length (options_bytes prev os) < fuel
      → ((left : ℕ) (more : List CoapOption) (v : World)
          → more ≡ options ++ options_from os
          → fuel ≤ left + length (options_bytes prev os)
          → v.live + option_blocks options ≡ w.live + option_blocks more
          → Ensures P Q (
              decode_options env left
                ((before ++ options_bytes prev os) ++ tail)
                (length (before ++ options_bytes prev os))
                (last_number prev os)
                more
                v))
      → Ensures P Q (
          decode_options env fuel
            (before ++ (options_bytes prev os ++ tail))
            (length before)
            prev
            options
            w)
  unfolding decode_options options_bytes options_from IsReadable
  decode_options-continues P Q zero before prev os tail options w q enough next =
      absurd (omega (arith, enough))
  decode_options-continues P Q (suc fuel) before prev [] tail options w q enough next =
      subst (λ t. Ensures P Q (decode_options env (suc fuel) (t ++ tail) (length t) prev options w))
        (append-nil before)
        (next (suc fuel) options w (sym (append-nil options)) (omega arith) refl)
  decode_options-continues P Q (suc fuel) before prev ((number, value) ∷ os) tail options w q enough
        next =
      subst (λ t. Ensures P Q (decode_options env (suc fuel) t (length before) prev options w))
        (ap (λ t. before ++ t) (sym (append_assoc option after tail)))
        (rw
          (at_option-header before header _
            (omega (arith, nibble-small (length value), nibble-small (number - prev))))
          (>>=-Ensures (λ r v. Read r v × Takes r v) P Q _ _ w
            (Ensures-both Read Takes Q (Failed 0 w.mqtt w.coap)
              (decode_option env packet (length before) prev (length options)) w
              (decode_option-reads env grants before prev (length options) number value
                (after ++ tail) w q.0 q.1 q.2 something)
              (decode_option-At 0 w.mqtt w.coap env packet (length before) prev (length options)
                w.live w inside (omega arith) (record { live = refl; mqtt = refl; coap = refl })))
            λ r v (e, at).
              subst
                (λ x.
                  Ensures P Q
                    (decode_options env fuel packet x.1 x.0.number (options ++ (x.0 ∷ [])) v))
                (sym e)
                (subst (λ n. Ensures P Q (decode_options env fuel packet n number more v))
                  (length-append before option)
                  (subst
                    (λ t.
                      Ensures P Q
                        (decode_options env fuel t (length (before ++ option)) number more v))
                    (append_assoc before option (after ++ tail))
                    (decode_options-continues P Q fuel (before ++ option) number os tail more v q.4
                      (omega (arith, enough, length-append {0} option after))
                      λ left m u same room live.
                        subst
                          (λ t. Ensures P Q (
                            decode_options env left (t ++ tail) (length t) (last_number number os) m
                              u))
                          (sym (append_assoc before option after))
                          (next left m u
                            (same
                              ∙ append_assoc options (option_from number value ∷ [])
                                  (options_from os))
                            (omega (arith, room, length-append {0} option after))
                            (omega (arith, live, taken r v e at))))))))
    where
      header : ℕ
      header = nibble (number - prev) * 16 + nibble (length value)

      option : List ℕ
      option = bytes_of prev number value

      after : List ℕ
      after = options_bytes number os

      packet : List ℕ
      packet = before ++ (option ++ (after ++ tail))

      more : List CoapOption
      more = options ++ (option_from number value ∷ [])

      Read : CoapOption × ℕ → World → Type 0
      Read r v = r ≡ (option_from number value, length before + length option)

      Takes : CoapOption × ℕ → World → Type 0
      Takes = Behind 0 w.mqtt w.coap packet (length before) (length options) w.live

      inside : length before < length packet
      inside = omega (arith, length-append {0} before (option ++ (after ++ tail)))

      taken :
          (r : CoapOption × ℕ) (v : World)
          → Read r v
          → Takes r v
          → v.live + option_blocks options ≡ w.live + option_blocks more
      taken r v e at =
          subst (λ o. v.live + option_blocks options ≡ w.live + option_blocks (options ++ (o ∷ [])))
            (ap (λ x. x.0) e) (omega (arith, option_blocks-snoc options r.0, at.0.live))

      something : 0 < length value + length (after ++ tail)
      something =
          omega (arith, q.3, length-append {0} after tail, length-le-options_bytes number os)

  -- The options, up to the payload.
  pub decode_options-reads :
      (fuel : ℕ) (before : List ℕ) (prev : ℕ) (os : List NumberedValue) (p : Option (List ℕ))
      (options : List CoapOption) (w : World)
      → IsReadable prev os (marked_bytes p)
      → length (options_bytes prev os) < fuel
      → Ensures
          (λ r v. r ≡ (options ++ options_from os, length before + length (options_bytes prev os)))
          Never
          (decode_options env fuel
            (before ++ (options_bytes prev os ++ marked_bytes p))
            (length before)
            prev
            options
            w)
  decode_options-reads fuel before prev os p options w q enough =
      decode_options-continues After Never fuel before prev os (marked_bytes p) options w q enough
        λ left more v same room live. stops left more v same (omega (arith, room, enough))
    where
      After : List CoapOption × ℕ → World → Type 0
      After r v = r ≡ (options ++ options_from os, length before + length (options_bytes prev os))

      stops :
          (left : ℕ) (more : List CoapOption) (v : World)
          → more ≡ options ++ options_from os
          → 0 < left
          → Ensures After Never (
              decode_options env left
                ((before ++ options_bytes prev os) ++ marked_bytes p)
                (length (before ++ options_bytes prev os))
                (last_number prev os)
                more
                v)
      stops zero more v same h = absurd (omega (arith, h))
      stops (suc left) more v same h =
          unfold decode_options in
          rw (at_option-end (before ++ options_bytes prev os) p)
            (ap₂ (λ a b. (a, b)) same (length-append before (options_bytes prev os)))

  pub decode_payload-reads :
      (before : List ℕ) (p : Option (List ℕ)) (n : ℕ) (w : World)
      → IsExact p n
      → Ensures
          (λ r v. r ≡ (p, n))
          Never
          (decode_payload env (before ++ marked_bytes p) (length before) w)
  unfolding decode_payload
  decode_payload-reads before none n w e =
      rw (append-nil before, at_payload-end before) (ap (λ k. (none, k)) (sym e))
  decode_payload-reads before (some xs) n w e =
      rw (at_payload-marker before xs, behind)
        (>>=-Ensures (λ r v. r ≡ content xs) (λ r v. r ≡ (some xs, n)) Never _ _ w
          (take_bytes-granted env grants packet (length before + 1) xs w bytes)
          λ r v g. ap₂ (λ a b. (a, b)) (g ∙ present xs (omega (arith, e.0, e.1))) (sym (e.1)))
    where
      present : (ys : List ℕ) → 0 < length ys → content ys ≡ some ys
      present [] h = absurd (omega (arith, h))
      present (y ∷ ys) h = refl

      packet : List ℕ
      packet = before ++ (0xff ∷ xs)

      total : length packet ≡ length before + (1 + length xs)
      total = omega (arith, length-append {0} before (0xff ∷ xs))

      behind : length packet - (length before + 1) ≡ length xs
      behind = omega (arith, total)

      bytes : slice packet (length before + 1) (length xs) ≡ ok xs
      bytes =
          subst (λ q. slice packet q (length xs) ≡ ok xs) (length-append before (0xff ∷ []))
            (subst (λ t. slice t (length (before ++ (0xff ∷ []))) (length xs) ≡ ok xs)
              (ap (λ t. (before ++ (0xff ∷ [])) ++ t) (append-nil xs)
                ∙ append_assoc before (0xff ∷ []) xs)
              (slice-inside (before ++ (0xff ∷ [])) xs []))
