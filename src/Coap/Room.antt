-- ===== src/Coap/Room.antt =====
-- The CoAP encoder on any message and any buffer: it writes only inside the buffer.
use paum_io_t.Common.{
  ℕ, zero, suc, ◌+◌, ◌-◌, ◌/◌, ◌%◌, ◌≤◌, ◌<◌, ◌≡◌, refl, ap, arith, Bool, not, ◌||◌, ◌⊎◌, List, [],
  ◌∷◌, ◌++◌, Option, none, some, length, length-append, length-set, length-take, take, ltb, leb,
  if◌then◌else◌, Bool-cases, inl, inr, bit_and,
}
use paum_io_t.Codes.{Code, buffer_overflow, invalid_param}
use paum_io_t.World.{
  Text, World, M, Result, ok, err, fault, ◌>>=◌, ◌>>◌, return, add64, fail, lift, store, store_all,
}
use paum_io_t.World.Rules.{Ensures, Yields, >>=-Ensures}
use paum_io_t.World.Buffer.{Grows, and_then-Yields, store-Grows, store_all-Grows}
use paum_io_t.Message.{Message, coap, same_protocol, load}
use paum_io_t.Message.Laws.{Readable}
use paum_io_t.Mqtt.Bounds.{slice-eq-ok}
use paum_io_t.Coap.Fields.{option_uri_path, coap_encode_option_ext}
use paum_io_t.Coap.Encode.{
  split_segment, patch, encode_option, encode_path, encode_header, encode_payload, encode_message,
  count_encoded, strip_slash, coap_adapter_encode,
}
use paum_io_t.Coap.Path.{Shorter, split_segment-Shorter}
use paum_io_t.Coap.Written.{encoded_once, numbered}

ext-Grows :
    (value size : ℕ) (out : List ℕ)
    → length out ≤ size
    → Yields (λ r. Grows size out r.1) (coap_encode_option_ext value size out)
unfolding coap_encode_option_ext store
ext-Grows value size out h = ground (
  arith,
  length-append {0} out (((value - 13) % 256) ∷ []),
  length-append {0} out (((value - 269) / 256 % 256) ∷ []),
  length-append {0} (out ++ (((value - 269) / 256 % 256) ∷ []))
      ((bit_and (value - 269) 0xff % 256) ∷ []),
)

patch-Grows :
    (i b size : ℕ) (out : List ℕ)
    → i < length out
    → length out ≤ size
    → Yields (λ o. Grows size out o) (patch i b out)
unfolding patch
patch-Grows i b size out h k = ground (arith, length-set {0} out i (b % 256))

option-Grows :
    (segment : Text) (prev size : ℕ) (out : List ℕ)
    → length out ≤ size
    → Yields (λ o. Grows size out o) (encode_option segment prev size out)
unfolding encode_option
option-Grows segment prev size out h = elim (Bool-cases (leb size (length out))) [
  | inl e ↦ rw e tt
  | inr e ↦ rw e (
      and_then-Yields (λ a. (length a ≡ length out + 1) × (length a ≤ size)) (λ o. Grows size out o)
        (store size 0 out) _ (store-Grows size 0 out (ground (arith, e)))
        λ a ha.
          and_then-Yields (λ r. Grows size a r.1) (λ o. Grows size out o) _ _
            (ext-Grows _ size a ha.1)
            λ r hr.
              and_then-Yields (λ q. Grows size r.1 q.1) (λ o. Grows size out o) _ _
                (ext-Grows _ size r.1 hr.1)
                λ q hq.
                  and_then-Yields (λ o. Grows size q.1 o) (λ o. Grows size out o) _ _
                    (patch-Grows (length out) _ size q.1 (omega (arith, ha.0, hr.0, hq.0)) hq.1)
                    λ o ho. last o (omega (arith, ha.0, hr.0, hq.0, ho.0)))
]
  where
    last :
        (o : List ℕ)
        → length out ≤ length o
        → Yields
            (λ x. Grows size out x)
            (if ltb size (length o + length segment)
              then err buffer_overflow
              else store_all size segment o)
    last o k = elim (Bool-cases (ltb size (length o + length segment))) [
      | inl e ↦ rw e tt
      | inr e ↦ rw e (store_all-Grows size segment out o k (ground (arith, e)))
    ]

path-Grows :
    (fuel : ℕ) (path : Option Text) (prev size : ℕ) (out : List ℕ)
    → Shorter (suc fuel) path
    → length out ≤ size
    → Yields (λ o. Grows size out o) (encode_path fuel path prev size out)
unfolding encode_path
path-Grows fuel none prev size out enough h = (omega arith, h)
path-Grows fuel (some []) prev size out enough h = (omega arith, h)
path-Grows zero (some (c ∷ cs)) prev size out enough h = absurd (omega (arith, enough))
path-Grows (suc fuel) (some (c ∷ cs)) prev size out enough h =
    let next : Option Text = (split_segment (c ∷ cs)).1 in
    let less : Shorter (suc fuel) next = shorter next (split_segment-Shorter (c ∷ cs)) in
    elim (Bool-cases (ltb 0 (length (split_segment (c ∷ cs)).0))) [
      | inr e ↦ rw e (path-Grows fuel next prev size out less h)
      | inl e ↦ rw e (
          and_then-Yields (λ o. Grows size out o) (λ o. Grows size out o) _ _
            (option-Grows (split_segment (c ∷ cs)).0 prev size out h)
            λ o k. further o k _ (path-Grows fuel next option_uri_path size o less k.1))
    ]
  where
    shorter : (o : Option Text) → Shorter (length (c ∷ cs)) o → Shorter (suc fuel) o
    shorter none k = tt
    shorter (some path) k = omega (arith, k, enough)

    further :
        (o : List ℕ)
        → Grows size out o
        → (r : Result (List ℕ)) → Yields (λ x. Grows size o x) r
        → Yields (λ x. Grows size out x) r
    further o k (ok a) g = (omega (arith, k.0, g.0), g.1)
    further o k (err e) g = tt
    further o k fault g = g

-- The state is `w`'s before, or after, the identifier is taken.
abbrev pub Failed : World → Code → World → Type 0
Failed w e v = (v ≡ w) ⊎ (v ≡ numbered w)

header-Grows :
    (m : Message) (size : ℕ) (w : World)
    → Ensures (λ o v. (length o ≤ size) × (v ≡ numbered w)) (Failed w) (encode_header m size w)
unfolding encode_header store ◌>>=◌
header-Grows m size w = elim (Bool-cases (ltb size 4)) [
  | inl e ↦ rw e (inl refl)
  | inr e ↦ ground (arith, e)
]

payload_of-Grows :
    (m : Message) (p : Option (List ℕ)) (n size : ℕ) (out : List ℕ) (w v : World)
    → Readable p n
    → length out ≤ size
    → v ≡ numbered w
    → Ensures
        (λ o u. (length o ≤ size) × (u ≡ numbered w))
        (Failed w)
        (encode_payload (record m { payload = p; payload_len = n }) size out v)
unfolding encode_payload load ◌>>=◌ store store_all
payload_of-Grows m none n size out w v readable h e = ground (arith, e)
payload_of-Grows m (some xs) n size out w v readable h e = ground (
  arith,
  e,
  slice-eq-ok xs 0 n,
  length-take n xs,
  length-append {0} out (0xff ∷ []),
  length-append {0} (out ++ (0xff ∷ [])) (take n xs),
)

-- What a call that returns leaves behind.
abbrev pub Written : ℕ → World → List ℕ → World → Type 0
Written size w o v = (length o ≤ size) × (v ≡ record w { coap = encoded_once w.coap })

message-Written :
    (m : Message) (destination : Text) (size : ℕ) (w : World)
    → Readable m.payload m.payload_len
    → Ensures (Written size w) (Failed w) (encode_message m destination size w)
unfolding encode_message
message-Written m destination size w readable =
    >>=-Ensures (λ o v. (length o ≤ size) × (v ≡ numbered w)) (Written size w) (Failed w)
      (encode_header m size) _ w (header-Grows m size w)
      λ header v h.
        >>=-Ensures (λ o u. (length o ≤ size) × (u ≡ numbered w)) (Written size w) (Failed w) _ _ v
          (lifted v header h.1 (encode_path (length path) (some path) 0 size header)
            (path-Grows (length path) (some path) 0 size header (omega arith) h.0))
          λ o u k.
            >>=-Ensures (λ o u. (length o ≤ size) × (u ≡ numbered w)) (Written size w) (Failed w) _
              _ u (payload_of-Grows m m.payload m.payload_len size o w u readable k.0 k.1)
              λ packet x g. counted packet x g.0 g.1
  where
    path : Text
    path = strip_slash destination

    lifted :
        (v : World) (header : List ℕ)
        → v ≡ numbered w
        → (r : Result (List ℕ)) → Yields (λ o. Grows size header o) r
        → Ensures (λ o u. (length o ≤ size) × (u ≡ numbered w)) (Failed w) (lift r v)
    lifted v header e (ok o) g = (g.1, e)
    lifted v header e (err c) g = inr e
    lifted v header e fault g = g

    counted :
        (packet : List ℕ) (x : World)
        → length packet ≤ size
        → x ≡ numbered w
        → Ensures (Written size w) (Failed w) ((count_encoded >> return packet) x)
    counted packet x h e =
        unfold count_encoded ◌>>=◌ in
        let count : World → World = λ y. record y {
          coap = record (y.coap) { packets_encoded = add64 y.coap.packets_encoded 1 };
        } in
        (h, ap count e)

-- Whatever the message is and however small the caller's buffer, the encoder has no fault: its
-- fuel for the path is enough, it writes only inside the buffer, and it reads the payload only as
-- far as it goes. It returns at most as many bytes as the buffer has, taking a message identifier
-- and counting the packet, or an error, which may have taken the identifier and has changed
-- nothing else. The payload may be read as far as its length says.
pub coap_adapter_encode_lem :
    (adapter : Bool) (m : Message) (packet : Bool) (size : ℕ) (bytes_written : Bool) (w : World)
    → Readable m.payload m.payload_len
    → Ensures
        (Written size w)
        (Failed w)
        (coap_adapter_encode adapter (some m) packet size bytes_written w)
unfolding coap_adapter_encode
coap_adapter_encode_lem adapter m packet size bytes_written w readable =
    elim (Bool-cases (not adapter || not packet || not bytes_written)) [
      | inl e ↦ rw e (inl refl)
      | inr e ↦ rw e (elim (Bool-cases (not (same_protocol m.protocol coap))) [
        | inl f ↦ rw f (inl refl)
        | inr f ↦ rw f (to m.destination)
      ])
    ]
  where
    to :
        (o : Option Text)
        → Ensures (Written size w) (Failed w) (
            (elim o as (λ _. M (List ℕ)) [
              | none ↦ fail invalid_param
              | some destination ↦ encode_message m destination size
            ])
              w)
    to none = inl refl
    to (some destination) = message-Written m destination size w readable
