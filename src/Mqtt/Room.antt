-- ===== src/Mqtt/Room.antt =====
-- The MQTT encoder on any message and any buffer: it writes only inside the buffer.
use paum_io_t.Common.{◌&&◌}
use paum_io_t.Common.{
  ℕ, ◌-◌, ◌%◌, ◌^◌, ◌≤◌, ◌<◌, ◌≡◌, refl, sym, ap, ◌∙◌, subst, arith, Bool, true, false, ◌⊎◌, List,
  [], ◌++◌, Option, none, some, length, leb, Bool-cases, inl, inr,
}
use paum_io_t.Codes.{Code, buffer_overflow, invalid_param}
use paum_io_t.World.{
  Text, World, M, Result, ok, err, fault, ◌>>=◌, ◌>>◌, return, add64, fail, fail_if, lift, get,
}
use paum_io_t.World.Rules.{Ensures, Yields, >>=-Ensures, Ensures-weaken}
use paum_io_t.World.Buffer.{Grows, store-Grows}
use paum_io_t.Message.{Message, mqtt, same_protocol}
use paum_io_t.Message.Laws.{Readable}
use paum_io_t.Mqtt.Format.{encoded_once}
use paum_io_t.Mqtt.Memory.{failed_once}
use paum_io_t.Mqtt.Decode.{count_errors}
use paum_io_t.Mqtt.Encode.{
  fixed_header, put_packet_id, count_encoded, mqtt_encode_publish, write_publish,
  mqtt_adapter_encode,
}
use paum_io_t.Mqtt.Writes.{
  numbered, string-Grows, packet_id-Grows, properties-Grows, payload-Grows, var_int-fits,
}

-- What a call that returns leaves behind, and one that fails.
abbrev pub Written : ℕ → ℕ → World → List ℕ → World → Type 0
Written size qos w o v = (length o ≤ size) × (v ≡ record w { mqtt = encoded_once qos w.mqtt })

abbrev Unfinished : ℕ → World → Code → World → Type 0
Unfinished qos w e v = (v ≡ w) ⊎ (v ≡ numbered qos w)

module _ (qos : ℕ) (w : World) where
  -- The bytes so far, in the state before and after the identifier.
  abbrev Before : ℕ → List ℕ → World → Type 0
  Before size o v = (length o ≤ size) × (v ≡ w)

  abbrev Behind : ℕ → List ℕ → World → Type 0
  Behind size o v = (length o ≤ size) × (v ≡ numbered qos w)

  lift-Before :
      (P : List ℕ → Type 0) (r : Result (List ℕ)) (v : World)
      → v ≡ w
      → Yields P r
      → Ensures (λ o u. P o × (u ≡ w)) (Unfinished qos w) (lift r v)
  lift-Before P (ok a) v e y = (y, e)
  lift-Before P (err c) v e y = inl e
  lift-Before P fault v e y = y

  move {ℓ} :
      {A : Type ℓ} (P : A → World → Type 0) (Q : A → World → Type 0) (r : Result A × World)
      (v : World)
      → v ≡ numbered qos w
      → Ensures P (λ e u. u ≡ v) r
      → ((a : A) (u : World) → P a u → Q a u)
      → Ensures Q (Unfinished qos w) r
  move P Q (ok a, u) v e h f = f a u h
  move P Q (err c, u) v e h f = inr (h ∙ e)
  move P Q (fault, u) v e h f = h

publish-Written :
    (m : Message) (topic : Text) (size : ℕ) (w : World)
    → Readable m.payload m.payload_len
    → Ensures (Written size m.qos w) (Unfinished m.qos w) (write_publish m topic size w)
unfolding write_publish
publish-Written m topic size w readable =
    let After : List ℕ → World → Type 0 = Written size m.qos w in
    let Stops : Code → World → Type 0 = Unfinished m.qos w in
    >>=-Ensures (λ _ v. (v ≡ w) × (leb size 0 ≡ false)) After Stops _ _ w
      (not_empty (leb size 0) refl)
      λ _ w1 h1.
        >>=-Ensures (λ o v. ((length o ≡ 1) × (length o ≤ size)) × (v ≡ w)) After Stops _ _ w1
          (lift-Before m.qos w (λ o. (length o ≡ 1) × (length o ≤ size)) _ w1 h1.0
            (store-Grows size (fixed_header m) [] (positive h1.1)))
          λ first w2 h2.
            >>=-Ensures (λ x v. v ≡ w) After Stops get _ w2 h2.1
              λ x w3 h3.
                >>=-Ensures (λ o v. (length o ≤ size - length first) × (v ≡ w)) After Stops _ _ w3
                  (lift-Before m.qos w (λ o. length o ≤ size - length first) _ w3 h3
                    (var_int-fits _ (size - length first) (small _)))
                  λ var w4 h4.
                    >>=-Ensures (λ o v. Grows size (first ++ var) o × (v ≡ w)) After Stops _ _ w4
                      (lift-Before m.qos w (λ o. Grows size (first ++ var) o) _ w4 h4.1
                        (string-Grows topic size (first ++ var)))
                      λ with_topic w5 h5.
                        >>=-Ensures (Behind m.qos w size) After Stops _ _ w5
                          (identified with_topic w5 h5.0.1 h5.1)
                          λ with_id w6 h6.
                            >>=-Ensures (Behind m.qos w size) After Stops _ _ w6
                              (move m.qos w (λ o v. (length o ≤ size) × (v ≡ w6))
                                (Behind m.qos w size) _ w6 h6.1
                                (properties-Grows size with_id w6 h6.0)
                                (λ o v k. (k.0, k.1 ∙ h6.1)))
                              λ with_properties w7 h7.
                                >>=-Ensures (Behind m.qos w size) After Stops _ _ w7
                                  (move m.qos w (λ o v. (length o ≤ size) × (v ≡ w7))
                                    (Behind m.qos w size) _ w7 h7.1
                                    (payload-Grows m.payload m.payload_len size with_properties w7
                                      readable h7.0)
                                    (λ o v k. (k.0, k.1 ∙ h7.1)))
                                  λ packet w8 h8. counted packet w8 h8.0 h8.1
  where
    small : (n : ℕ) → n % 2 ^ 32 < 2 ^ 32
    small n = omega arith

    not_empty :
        (b : Bool)
        → leb size 0 ≡ b
        → Ensures
            (λ _ v. (v ≡ w) × (leb size 0 ≡ false))
            (Unfinished m.qos w)
            (fail_if b buffer_overflow w)
    not_empty true e = inl refl
    not_empty false e = (refl, e)

    positive : leb size 0 ≡ false → 0 < size
    positive e = ground arith

    identified :
        (o : List ℕ) (v : World)
        → length o ≤ size
        → v ≡ w
        → Ensures (Behind m.qos w size) (Unfinished m.qos w) (put_packet_id m.qos size o v)
    identified o v h e =
        subst
          (λ u. Ensures (Behind m.qos w size) (Unfinished m.qos w) (put_packet_id m.qos size o u))
          (sym e)
          (Ensures-weaken (Behind m.qos w size) (Behind m.qos w size) (λ c u. u ≡ w)
            (Unfinished m.qos w) _ (packet_id-Grows m.qos size o w h) (λ a u k. k) (λ c u k. inl k))

    counted :
        (packet : List ℕ) (v : World)
        → length packet ≤ size
        → v ≡ numbered m.qos w
        → Ensures (Written size m.qos w) (Unfinished m.qos w) ((count_encoded >> return packet) v)
    counted packet v h e =
        unfold count_encoded ◌>>=◌ in
        let count : World → World = λ y. record y {
          mqtt = record (y.mqtt) { packets_encoded = add64 y.mqtt.packets_encoded 1 };
        } in
        (h, ap count e)

-- The arguments that pass the tests for NULL and for the protocol.
abbrev pub admits : Bool → Message → Bool → Bool → Bool
admits adapter m packet bytes_written =
    adapter && (packet && (bytes_written && same_protocol m.protocol mqtt))

-- Refused arguments change nothing. Any other error is counted, before or after the identifier is
-- taken.
abbrev pub Failed : Bool → ℕ → World → Code → World → Type 0
Failed false qos w e v = v ≡ w
Failed true qos w e v =
    (v ≡ record w { mqtt = failed_once w.mqtt })
    ⊎ (v ≡ record w { mqtt = failed_once (numbered qos w).mqtt })

count_errors-Failed :
    (size qos : ℕ) (w : World) (r : Result (List ℕ)) (v : World)
    → Ensures (Written size qos w) (Unfinished qos w) (r, v)
    → Ensures (Written size qos w) (Failed true qos w) (count_errors (λ _. (r, v)) v)
unfolding count_errors
count_errors-Failed size qos w (ok a) v h = h
count_errors-Failed size qos w (err e) v (inl k) =
    inl (ap (λ (y : World). record y { mqtt = failed_once y.mqtt }) k)
count_errors-Failed size qos w (err e) v (inr k) =
    inr (ap (λ (y : World). record y { mqtt = failed_once y.mqtt }) k)
count_errors-Failed size qos w fault v h = h

adapter-Written :
    (m : Message) (size : ℕ) (w : World)
    → Readable m.payload m.payload_len
    → Ensures
        (Written size m.qos w)
        (Failed true m.qos w)
        (count_errors (mqtt_encode_publish m size) w)
unfolding count_errors mqtt_encode_publish
adapter-Written m size w readable =
    count_errors-Failed size m.qos w (mqtt_encode_publish m size w).0
      (mqtt_encode_publish m size w).1 (to m.destination)
  where
    to :
        (o : Option Text)
        → Ensures (Written size m.qos w) (Unfinished m.qos w) (
            (elim o as (λ _. M (List ℕ)) [
              | none ↦ fail invalid_param
              | some topic ↦ write_publish m topic size
            ])
              w)
    to none = inl refl
    to (some topic) = publish-Written m topic size w readable

-- Whatever the message is and however small the caller's buffer, the encoder has no fault: it
-- writes only inside the buffer and reads the payload only as far as it goes. It returns at most as
-- many bytes as the buffer has, taking a packet identifier if the QoS is not 0 and counting the
-- packet. Or it returns an error: if the arguments or the protocol are refused, nothing changes, and
-- any other error is counted, whether or not it has taken the identifier. The payload may be read as
-- far as its length says.
pub mqtt_adapter_encode_lem :
    (adapter : Bool) (m : Message) (packet : Bool) (size : ℕ) (bytes_written : Bool) (w : World)
    → Readable m.payload m.payload_len
    → Ensures
        (Written size m.qos w)
        (Failed (admits adapter m packet bytes_written) m.qos w)
        (mqtt_adapter_encode adapter (some m) packet size bytes_written w)
unfolding mqtt_adapter_encode
mqtt_adapter_encode_lem false m packet size bytes_written w readable = refl
mqtt_adapter_encode_lem true m false size bytes_written w readable = refl
mqtt_adapter_encode_lem true m true size false w readable = refl
mqtt_adapter_encode_lem true m true size true w readable =
    elim (Bool-cases (same_protocol m.protocol mqtt)) [
      | inl e ↦ rw e (adapter-Written m size w readable)
      | inr e ↦ rw e refl
    ]
