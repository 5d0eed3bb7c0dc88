-- ===== src/Mqtt/Writes.antt =====
-- The parts of a PUBLISH packet that the MQTT encoder writes: each stays inside the buffer.
use paum_io_t.Common.{
  ℕ, ◌+◌, ◌/◌, ◌%◌, ◌^◌, ◌≤◌, ◌<◌, ◌≡◌, arith, false, List, [], ◌∷◌, ◌++◌, Option, none, some,
  length, length-append, length-take, take, ltb, if◌then◌else◌, Bool-cases, inl, inr, bit_and,
}
use paum_io_t.World.{Text, World, ◌>>=◌, store, store_all}
use paum_io_t.World.Rules.{Ensures, Yields}
use paum_io_t.World.Buffer.{Grows, and_then-Yields, store-Grows, store_all-Grows}
use paum_io_t.Message.{load}
use paum_io_t.Message.Laws.{Readable}
use paum_io_t.Mqtt.Bounds.{slice-eq-ok}
use paum_io_t.Mqtt.Fields.{mqtt_encode_string, mqtt_encode_var_int}
use paum_io_t.Mqtt.VarInt.{encode_var_int-groups}
use paum_io_t.Mqtt.Encode.{put_packet_id, put_properties, put_payload}

-- The state after the packet identifier is taken, which a QoS of 0 does not do.
abbrev pub numbered : ℕ → World → World
numbered qos w = record w {
  mqtt = record (w.mqtt) {
    next_packet_id =
        if ltb 0 qos then (w.mqtt.next_packet_id + 1) % 2 ^ 16 else w.mqtt.next_packet_id;
  };
}

pub string-Grows :
    (s : Text) (size : ℕ) (out : List ℕ)
    → Yields (λ o. Grows size out o) (mqtt_encode_string s size out)
unfolding mqtt_encode_string
string-Grows s size out =
    let n : ℕ = length s % 2 ^ 16 in
    elim (Bool-cases (ltb size (length out + 2 + n))) [
      | inl e ↦ rw e tt
      | inr e ↦ rw e (
          and_then-Yields (λ a. (length a ≡ length out + 1) × (length a ≤ size))
            (λ o. Grows size out o) (store size (n / 256) out) _
            (store-Grows size (n / 256) out (ground (arith, e)))
            λ a ha.
              and_then-Yields (λ b. (length b ≡ length a + 1) × (length b ≤ size))
                (λ o. Grows size out o) (store size (bit_and n 0xff) a) _
                (store-Grows size (bit_and n 0xff) a (room a ha.0 e))
                λ b hb.
                  store_all-Grows size (take n s) out b (omega (arith, ha.0, hb.0))
                    (fits a b ha.0 hb.0 e))
    ]
  where
    room :
        (a : List ℕ)
        → length a ≡ length out + 1
        → ltb size (length out + 2 + length s % 2 ^ 16) ≡ false
        → length a < size
    room a h e = ground arith

    fits :
        (a b : List ℕ)
        → length a ≡ length out + 1
        → length b ≡ length a + 1
        → ltb size (length out + 2 + length s % 2 ^ 16) ≡ false
        → length b + length (take (length s % 2 ^ 16) s) ≤ size
    fits a b h k e = ground (arith, length-take (length s % 2 ^ 16) s)

pub packet_id-Grows :
    (qos size : ℕ) (out : List ℕ) (w : World)
    → length out ≤ size
    → Ensures
        (λ o v. (length o ≤ size) × (v ≡ numbered qos w))
        (λ e v. v ≡ w)
        (put_packet_id qos size out w)
unfolding put_packet_id ◌>>=◌ store
packet_id-Grows qos size out w h =
    let id : ℕ = w.mqtt.next_packet_id in
    ground (
      arith,
      length-append {0} out ((id / 256 % 256) ∷ []),
      length-append {0} (out ++ ((id / 256 % 256) ∷ [])) ((bit_and id 0xff % 256) ∷ []),
    )

pub properties-Grows :
    (size : ℕ) (out : List ℕ) (w : World)
    → length out ≤ size
    → Ensures (λ o v. (length o ≤ size) × (v ≡ w)) (λ e v. v ≡ w) (put_properties size out w)
unfolding put_properties ◌>>=◌ store
properties-Grows size out w h = ground (arith, length-append {0} out (0 ∷ []))

pub payload-Grows :
    (p : Option (List ℕ)) (n size : ℕ) (out : List ℕ) (w : World)
    → Readable p n
    → length out ≤ size
    → Ensures (λ o v. (length o ≤ size) × (v ≡ w)) (λ e v. v ≡ w) (put_payload p n size out w)
unfolding put_payload load ◌>>=◌ store_all
payload-Grows none n size out w readable h = ground arith
payload-Grows (some xs) n size out w readable h =
    ground (arith, slice-eq-ok xs 0 n, length-take n xs, length-append {0} out (take n xs))

pub var_int-fits :
    (v size : ℕ) → v < 2 ^ 32 → Yields (λ g. length g ≤ size) (mqtt_encode_var_int v size)
var_int-fits v size h = rw (encode_var_int-groups v size h) (ground arith)
