-- ===== src/Message/Laws.antt =====
-- The memory that messages hold, and what a copy is.
use paum_io_t.Common.{refl, ℕ, ◌+◌, ◌≤◌, ◌<◌, ◌≡◌, arith, Option, none, some, List, length}
use paum_io_t.Codes.{Code}
use paum_io_t.World.{MqttState, CoapState, Text, Env, World, Result}
use paum_io_t.World.Rules.{At, Ensures, >>=-Ensures}
use paum_io_t.Message.{
  Message, message_create, message_free, message_copy, set_payload, replace_string, copy_string,
  copy_payload, fill_copy,
}

abbrev pub one {ℓ} : {A : Type ℓ} → Option A → ℕ
one none = 0
one (some a) = 1

-- The blocks that a message owns, its own among them.
abbrev pub blocks : Message → ℕ
blocks m =
    1
    + one m.message_id
    + one m.timestamp
    + one m.source
    + one m.destination
    + one m.payload
    + one m.content_type

abbrev pub owned : Option Message → ℕ
owned none = 0
owned (some m) = blocks m

-- A call is done without a fault, and adds to the `n` blocks what `f` counts in its result.
abbrev pub Keeps {ℓ} : {A : Type ℓ} → (A → ℕ) → ℕ → Result A × World → Type 0
Keeps f n = Ensures (λ a w. w.live ≡ n + f a) (λ e w. w.live ≡ n)

-- A payload pointer and length that may be read.
abbrev pub Readable : Option (List ℕ) → ℕ → Type 0
Readable none n = n ≡ 0
Readable (some xs) n = n ≤ length xs

-- What `message_set_payload` leaves: no bytes, or a block of exactly the length given.
abbrev pub IsExact : Option (List ℕ) → ℕ → Type 0
IsExact none n = n ≡ 0
IsExact (some xs) n = (0 < n) × (n ≡ length xs)

-- A message that has at most its identifier and its time stamp.
abbrev pub IsFresh : Option Message → Type 0
IsFresh none = Unit
IsFresh (some m) = one m.source + one m.destination + one m.payload + one m.content_type ≡ 0

-- `message_create` returns a message with all it allocated, or NULL and nothing allocated.
pub message_create-Keeps : (env : Env) (w : World) → Keeps owned w.live (message_create env w)
unfolding message_create
message_create-Keeps env w = ground arith

pub message_create-At :
    (env : Env) (w : World) (n : ℕ) {s : MqttState} {c : CoapState} (Q : Code → World → Type 0)
    → At n s c w
    → Ensures (λ r w'. At (n + owned r) s c w' × IsFresh r) Q (message_create env w)
unfolding message_create
message_create-At env w n Q h = ground arith

pub message_free-live :
    (m : Message) (w : World) (n : ℕ) → w.live ≡ n + blocks m → (message_free (some m) w).1.live ≡ n
unfolding message_free
message_free-live m w n h = ground arith

-- `message_free` releases all that a message owns, and returns.
pub message_free-At :
    (m : Message) (w : World) (n : ℕ) {s : MqttState} {c : CoapState} (P : Code → World → Type 0)
    → At (n + blocks m) s c w
    → Ensures (λ u w'. At n s c w') P (message_free (some m) w)
unfolding message_free
message_free-At m w n P h = ground arith

module _ (env : Env) (Q : Code → World → Type 0) where
  replace_string-live :
      (s old : Option Text) (w : World) (n : ℕ)
      → w.live ≡ n + one old
      → Ensures (λ r w'. w'.live ≡ n + one r) Q (replace_string env s old w)
  unfolding replace_string
  replace_string-live s old w n h = ground arith

  copy_string-live :
      (s : Option Text) (w : World) (n : ℕ)
      → w.live ≡ n
      → Ensures (λ r w'. w'.live ≡ n + one r) Q (copy_string env s w)
  unfolding copy_string
  copy_string-live s w n h = ground arith

  copy_payload-live :
      (p : Option (List ℕ)) (len : ℕ) (w : World) (n : ℕ)
      → Readable p len
      → w.live ≡ n
      → Ensures (λ r w'. w'.live ≡ n + one r.0) Q (copy_payload env p len w)
  unfolding copy_payload
  copy_payload-live none len w n h e = ground arith
  copy_payload-live (some xs) len w n h e = ground arith

  -- The strings and the payload of the copy, once it is created.
  fill_copy-live :
      (m c : Message) (w : World) (n : ℕ)
      → Readable m.payload m.payload_len
      → w.live ≡ n + blocks c
      → IsFresh (some c)
      → Ensures (λ r w'. w'.live ≡ n + owned r) Q (fill_copy env m c w)
  unfolding fill_copy
  fill_copy-live m c w n h e f =
      let After : Option Message → World → Type 0 = λ r v. v.live ≡ n + owned r in
      >>=-Ensures (λ (a : Option Text) (v : World). v.live ≡ n + 1 + one c.timestamp + one a) After
        Q _ _ w
        (replace_string-live m.message_id c.message_id w (n + 1 + one c.timestamp) (omega arith))
        λ a1 v1 h1.
          >>=-Ensures (λ (a : Option Text) (v : World). v.live ≡ n + 1 + one a1 + one a) After Q _ _
            v1 (replace_string-live m.timestamp c.timestamp v1 (n + 1 + one a1) (omega arith))
            λ a2 v2 h2.
              >>=-Ensures
                (λ (a : Option Text) (v : World). v.live ≡ n + 1 + one a1 + one a2 + one a) After Q
                _ _ v2 (copy_string-live m.source v2 (n + 1 + one a1 + one a2) h2)
                λ a3 v3 h3.
                  >>=-Ensures
                    (λ (a : Option Text) (v : World).
                      v.live ≡ n + 1 + one a1 + one a2 + one a3 + one a)
                    After Q _ _ v3
                    (copy_string-live m.destination v3 (n + 1 + one a1 + one a2 + one a3) h3)
                    λ a4 v4 h4.
                      >>=-Ensures
                        (λ (a : Option Text) (v : World).
                          v.live ≡ n + 1 + one a1 + one a2 + one a3 + one a4 + one a)
                        After Q _ _ v4
                        (copy_string-live m.content_type v4
                          (n + 1 + one a1 + one a2 + one a3 + one a4) h4)
                        λ a5 v5 h5.
                          >>=-Ensures
                            (λ (a : Option (List ℕ) × ℕ) (v : World).
                              v.live ≡ n + 1 + one a1 + one a2 + one a3 + one a4 + one a5 + one a.0)
                            After Q _ _ v5
                            (copy_payload-live m.payload m.payload_len v5
                              (n + 1 + one a1 + one a2 + one a3 + one a4 + one a5) h h5)
                            λ a6 v6 h6. omega arith

-- Whichever of its requests for memory fail, `message_copy` hands over all that it allocated, for a
-- payload that may be read as far as its length says.
pub message_copy-Keeps :
    (env : Env) (m : Message) (w : World)
    → Readable m.payload m.payload_len
    → Keeps owned w.live (message_copy env (some m) w)
unfolding message_copy
message_copy-Keeps env m w h =
    >>=-Ensures (λ c v. At (w.live + owned c) w.mqtt w.coap v × IsFresh c)
      (λ c v. v.live ≡ w.live + owned c) (λ e v. v.live ≡ w.live) (message_create env) _ w
      (message_create-At env w w.live _ (record { live = refl; mqtt = refl; coap = refl }))
      (elim [
        | none ↦ λ v k. k.0.live
        | some c ↦ λ v k. fill_copy-live env _ m c v w.live h k.0.live k.1
      ])

-- `message_set_payload` releases the old payload and takes the new one, on success with its bytes.
pub set_payload-At :
    (env : Env) (m : Message) (xs : List ℕ) (len n : ℕ) (w : World) {s : MqttState} {c : CoapState}
    (Q : Code → World → Type 0)
    → len ≤ length xs
    → At (n + blocks m) s c w
    → Ensures (λ r w'. At (n + blocks r.1) s c w') Q (set_payload env m (some xs) len w)
unfolding set_payload
set_payload-At env m xs len n w Q h e = ground arith
