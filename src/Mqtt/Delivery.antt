-- ===== src/Mqtt/Delivery.antt =====
-- What the steps of the decoder make of the parts of a packet that is laid out as Mqtt.Format says.
use paum_io_t.World.Rules.{ok-Ensures}
use paum_io_t.Common.{◌-◌, length-drop, le→leb, le→ltb_false, ap}
use paum_io_t.Common.{
  ℕ, ◌+◌, ◌/◌, ◌%◌, ◌^◌, ◌≤◌, ◌<◌, ◌≡◌, refl, arith, Bool, List, [], ◌∷◌, ◌++◌, Option, none, some,
  length, length-append, append_assoc, take_all, take-length_append, drop, ◌==◌, Bool-cases, inl,
  inr, All, lt→ltb,
}
use paum_io_t.Common.Bits.{join_bytes}
use paum_io_t.World.{Text, Env, Grants, World, ok, ◌>>=◌, freed, alloc, until_nul}
use paum_io_t.World.Rules.{Ensures, >>=-Ensures}
use paum_io_t.Codes.{is_success, success, Code}
use paum_io_t.Message.{Message, mqtt, message_create, set_payload}
use paum_io_t.Mqtt.Fields.{mqtt_decode_string}
use paum_io_t.Mqtt.VarInt.{groups, decode-groups}
use paum_io_t.Mqtt.Bounds.{slice-eq-ok, read_u16-eq-ok}
use paum_io_t.Mqtt.Format.{string_bytes, id_bytes, property_section, payload_bytes}
use paum_io_t.Mqtt.Decode.{count_decoded, attach_payload, deliver, skip_packet_id, skip_properties}

-- A C string has no 0 before its end.
abbrev pub IsText : Text → Type 0
IsText = All (λ c. 0 < c)

pub until_nul-text : (s : Text) → IsText s → until_nul s ≡ s
unfolding until_nul
until_nul-text [] h = refl
until_nul-text (c ∷ cs) h = ground (arith, until_nul-text cs h.1)

-- What a decoded message says: its topic, QoS, retain flag and bytes.
pub record Carries (topic : Text) (qos : ℕ) (retain : Bool) (bytes : List ℕ) (r : Message)
    : Type 0 where
  pub to : r.destination ≡ some topic
  pub at : r.metadata.qos ≡ qos
  pub kept : r.metadata.retain ≡ retain
  pub via : r.metadata.protocol ≡ mqtt
  pub size : r.payload_len ≡ length bytes
  pub holds : payload_bytes r.payload ≡ bytes

abbrev pub Never : Code → World → Type 0
Never e w = ⊥

-- The message `r` is `m` with the payload given.
abbrev pub IsFilled : Message → List ℕ → Message → Type 0
IsFilled m bytes r =
    (r.destination ≡ m.destination)
    × (r.metadata ≡ m.metadata)
    × (r.payload_len ≡ length bytes)
    × (payload_bytes r.payload ≡ bytes)

-- A message with no payload yet.
abbrev pub IsBlank : Option Message → Type 0
IsBlank none = ⊥
IsBlank (some m) = (m.payload ≡ none) × (m.payload_len ≡ 0)

module _ (env : Env) (grants : Grants env) where
  pub string-decodes :
      (topic : Text) (rest : List ℕ) (w : World)
      → IsText topic
      → length topic < 2 ^ 16
      → Ensures
          (λ r v. (r ≡ (topic, 2 + length topic)) × (v.mqtt ≡ w.mqtt))
          Never
          (mqtt_decode_string env (string_bytes topic ++ rest) 0 w)
  unfolding mqtt_decode_string ◌>>=◌ alloc
  string-decodes topic rest w text short = ground (
    arith,
    read_u16-eq-ok (string_bytes topic ++ rest) 0,
    slice-eq-ok (string_bytes topic ++ rest) 2 (length topic),
    join_bytes (length topic / 256) (length topic % 256),
    length-append topic rest,
    take-length_append topic rest,
    until_nul-text topic text,
    grants w.calls,
  )

  pub create-delivers :
      (w : World) → Ensures (λ x v. IsBlank x × (v.mqtt ≡ w.mqtt)) Never (message_create env w)
  unfolding message_create
  create-delivers w = ground (arith, grants w.calls)

  pub set_payload-delivers :
      (m : Message) (b : ℕ) (bs : List ℕ) (w : World)
      → Ensures
          (λ r v.
            r ≡ (success, record m { payload = some (b ∷ bs); payload_len = length (b ∷ bs) }))
          Never
          (set_payload env m (some (b ∷ bs)) (length (b ∷ bs)) w)
  unfolding set_payload ◌>>=◌
  set_payload-delivers m b bs w =
      ground (arith, grants (freed m.payload w).calls, take_all (length (b ∷ bs)) (b ∷ bs))

  attach-delivers :
      (m : Message) (packet : List ℕ) (pos : ℕ) (bytes : List ℕ) (w : World)
      → m.payload ≡ none
      → m.payload_len ≡ 0
      → pos ≤ length packet
      → drop pos packet ≡ bytes
      → Ensures (λ r v. IsFilled m bytes r) Never (attach_payload env m packet pos w)
  unfolding attach_payload
  attach-delivers m packet pos [] w h k inside e =
      rw
        (
          le→leb pos (length packet) inside,
          le→ltb_false 0 (length packet - pos) (omega (arith, length-drop pos packet, ap length e)),
        )
        (refl, refl, k, ap payload_bytes h)
  attach-delivers m packet pos (b ∷ bs) w h k inside e =
      let size : length packet - pos ≡ length (b ∷ bs) =
        omega (arith, length-drop pos packet, ap length e) in
      rw
        (
          le→leb pos (length packet) inside,
          size,
          lt→ltb 0 (length (b ∷ bs)) (omega arith),
          slice-eq-ok packet pos (length (b ∷ bs)) (omega (arith, inside, size)),
          e,
          take_all (length (b ∷ bs)) (b ∷ bs) (omega arith),
        )
        (ok-Ensures (λ r v. IsFilled m (b ∷ bs) r) Never _ _ w {a = b ∷ bs} {w' = w} refl
          (>>=-Ensures
            (λ r v.
              r ≡ (success, record m { payload = some (b ∷ bs); payload_len = length (b ∷ bs) }))
            (λ r v. IsFilled m (b ∷ bs) r) Never
            (set_payload env m (some (b ∷ bs)) (length (b ∷ bs))) _ w
            (set_payload-delivers m b bs w)
            (λ r v e. rw e (unfold is_success in (refl, refl, refl, refl)))))

  pub deliver-delivers :
      (packet : List ℕ) (pos : ℕ) (topic : Text) (qos : ℕ) (retain : Bool) (bytes : List ℕ)
      (w : World)
      → pos ≤ length packet
      → drop pos packet ≡ bytes
      → Ensures
          (λ r v. Carries topic qos retain bytes r)
          Never
          (deliver env packet pos topic qos retain w)
  unfolding deliver
  deliver-delivers packet pos topic qos retain bytes w inside e =
      >>=-Ensures (λ x v. IsBlank x × (v.mqtt ≡ w.mqtt)) After Never _ _ w (create-delivers w)
        (elim [
          | none ↦ λ v k. absurd k.0
          | some fresh ↦ λ v k.
              (>>=-Ensures (λ r u. IsFilled (addressed fresh) bytes r) After Never _ _ v
                (attach-delivers (addressed fresh) packet pos bytes v k.0.0 k.0.1 inside e)
                (λ r u g. unfold count_decoded ◌>>=◌ in ground arith))
        ])
    where
      After : Message → World → Type 0
      After r v = Carries topic qos retain bytes r

      addressed : Message → Message
      addressed fresh = record fresh {
        destination = some topic;
        metadata = record (fresh.metadata) { protocol = mqtt; qos = qos; retain = retain };
      }

pub skip_packet_id-eq :
    (packet : List ℕ) (qos id pos : ℕ)
    → pos + length (id_bytes qos id) ≤ length packet
    → skip_packet_id packet qos pos ≡ ok (pos + length (id_bytes qos id))
unfolding skip_packet_id
skip_packet_id-eq packet qos id pos h = ground (arith, read_u16-eq-ok packet pos)

pub skip_properties-eq :
    (before properties rest : List ℕ) (version : ℕ)
    → length properties < 128 ^ 4
    → skip_properties
        (before ++ (property_section version properties ++ rest))
        version
        (length before)
      ≡ ok (length before + length (property_section version properties))
unfolding skip_properties
skip_properties-eq before properties rest version small = elim (Bool-cases (version == 5)) [
  | inr e ↦ rw e (ground arith)
  | inl e ↦
      let var = groups 4 (length properties) in
      rw
        (
          e,
          append_assoc var properties rest,
          decode-groups (length properties) before (properties ++ rest) small,
        )
        (ground (
          arith,
          length-append {0} before (var ++ (properties ++ rest)),
          length-append {0} var (properties ++ rest),
          length-append {0} properties rest,
          length-append {0} var properties,
        ))
]
