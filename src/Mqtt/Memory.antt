-- ===== src/Mqtt/Memory.antt =====
-- The MQTT decoder on any bytes: its accesses to the packet, its blocks and its counters.
use paum_io_t.Mqtt.Bounds.{HasSmallFifth}
use paum_io_t.World.Rules.{ok-Ensures}
use paum_io_t.Common.{
  ◌-◌, refl, sym, ap, ◌∙◌, subst, [], take, take_all, length-take, length-drop, drop-drop, le→leb,
}
use paum_io_t.Common.{
  ℕ, ◌+◌, ◌*◌, ◌≤◌, ◌≡◌, arith, Bool, true, false, not, List, length, drop, ltb, Option, some, none,
  bit_or, bit_and, get_or, ◌/◌, ◌==◌, leb, ◌&&◌, if◌then◌else◌, Bool-cases, inl, inr,
}
use paum_io_t.Codes.{Code, is_success, out_of_memory, invalid_param}
use paum_io_t.World.{
  Text, Env, World, MqttState, CoapState, Result, ok, err, fault, ◌>>=◌, ◌>>◌, return, fail, alloc,
  get, add64, slice, read,
}
use paum_io_t.World.Rules.{At, Ensures, Yields, >>=-Ensures, lift-Ensures, fail_if-Ensures}
use paum_io_t.Message.{Message, message_create, message_free, set_payload}
use paum_io_t.Message.Laws.{
  blocks, owned, message_create-At, IsFresh, message_free-At, set_payload-At,
}
use paum_io_t.Mqtt.Fields.{mqtt_decode_string}
use paum_io_t.Mqtt.Bounds.{
  read-eq-ok, slice-eq-ok, read_u16-eq-ok, mqtt_decode_var_int-Within, skip_packet_id-Yields,
  skip_properties-Yields,
}
use paum_io_t.Mqtt.Decode.{
  release, count_decoded, count_errors, attach_payload, deliver, mqtt_decode_publish,
  decode_by_type, decode_packet, mqtt_adapter_decode,
}

-- What `packets_decoded++` and `errors++` leave.
abbrev pub decoded_once : MqttState → MqttState
decoded_once m = record m { packets_decoded = add64 m.packets_decoded 1 }

abbrev pub failed_once : MqttState → MqttState
failed_once m = record m { errors = add64 m.errors 1 }

-- With MQTT 5, no number that starts in these bytes goes on to a fifth byte of 8 or more.
abbrev pub PropertiesFit : MqttState → List ℕ → Type 0
PropertiesFit m bytes = m.protocol_version ≡ 5 → (i : ℕ) → HasSmallFifth 4 (drop i bytes)

-- The remaining length does not go on to a fifth byte of 8 or more, and with MQTT 5 no number does.
abbrev pub LengthsFit : MqttState → List ℕ → Type 0
LengthsFit m packet = HasSmallFifth 4 (drop 1 packet) × PropertiesFit m packet

module _ (n : ℕ) (m : MqttState) (c : CoapState) where
  release-Ensures {ℓ} :
      {A : Type ℓ} (P : A → Type 0) (topic : Text) (r : Result A) {w : World}
      → At (n + 1) m c w
      → Yields P r
      → Ensures (λ a w'. At (n + 1) m c w' × P a) (λ e w'. At n m c w') (release topic r w)
  unfolding release
  release-Ensures P topic (ok a) h y = (h, y)
  release-Ensures P topic (err e) h y = ground arith
  release-Ensures P topic fault h y = y

  string-Ensures :
      (env : Env) (packet : List ℕ) (pos : ℕ) (w : World)
      → At n m c w
      → Ensures
          (λ r w'. At (n + 1) m c w' × (r.1 ≤ length packet))
          (λ e w'. At n m c w')
          (mqtt_decode_string env packet pos w)
  unfolding mqtt_decode_string ◌>>=◌ alloc
  string-Ensures env packet pos w h =
      let str_len : ℕ = bit_or (get_or packet pos 0 * 256) (get_or packet (pos + 1) 0) in
      ground (arith, read_u16-eq-ok packet pos, slice-eq-ok packet (pos + 2) str_len)

  attach-Ensures :
      (env : Env) (msg : Message) (packet : List ℕ) (pos : ℕ) (w : World)
      → pos ≤ length packet
      → At (n + blocks msg) m c w
      → Ensures
          (λ r w'. At (n + blocks r) m c w')
          (λ e w'. At n m c w')
          (attach_payload env msg packet pos w)
  unfolding attach_payload
  attach-Ensures env msg packet pos w inside h =
      rw (le→leb pos (length packet) inside) (elim (Bool-cases (ltb 0 (length packet - pos))) [
        | inr empty ↦ rw empty h
        | inl some_bytes ↦
            rw (some_bytes, slice-eq-ok packet pos (length packet - pos) whole)
              (ok-Ensures (λ r v. At (n + blocks r) m c v) (λ e v. At n m c v) _ _ w {a = rest}
                {w' = w} refl
                (>>=-Ensures (λ r v. At (n + blocks r.1) m c v) (λ r v. At (n + blocks r) m c v)
                  (λ e v. At n m c v) (set_payload env msg (some rest) (length packet - pos)) _ w
                  (set_payload-At env msg rest (length packet - pos) n w _ size h)
                  (λ r v k. finish r v k (is_success r.0))))
      ])
    where
      whole : pos + (length packet - pos) ≤ length packet
      whole = omega (arith, inside)

      rest : List ℕ
      rest = take (length packet - pos) (drop pos packet)

      size : length packet - pos ≤ length rest
      size =
          omega (arith, length-take (length packet - pos) (drop pos packet), length-drop pos packet)

      finish :
          (r : Code × Message) (v : World)
          → At (n + blocks r.1) m c v
          → (done : Bool)
          → Ensures
              (λ a u. At (n + blocks a) m c u)
              (λ e u. At n m c u)
              ((if done then return (r.1) else (message_free (some r.1) >> fail r.0)) v)
      finish r v k true = k
      finish r v k false =
          >>=-Ensures (λ _ u. At n m c u) (λ (a : Message) u. At (n + blocks a) m c u)
            (λ e u. At n m c u) (message_free (some r.1)) (λ _. fail r.0) v
            (message_free-At r.1 v n _ k) (λ _ u g. g)

  deliver-Ensures :
      (env : Env) (packet : List ℕ) (pos : ℕ) (topic : Text) (qos : ℕ) (retain : Bool) (w : World)
      → pos ≤ length packet
      → At (n + 1) m c w
      → Ensures
          (λ r w'. At (n + blocks r) (decoded_once m) c w')
          (λ e w'. At n m c w')
          (deliver env packet pos topic qos retain w)
  unfolding deliver
  deliver-Ensures env packet pos topic qos retain w inside h =
      >>=-Ensures (λ x v. At (n + 1 + owned x) m c v × IsFresh x) After (λ e v. At n m c v)
        (message_create env) _ w (message_create-At env w (n + 1) _ h)
        (elim [
          | none ↦ λ v k. release-none topic v k.0
          | some fresh ↦ λ v k.
              >>=-Ensures (λ r u. At (n + blocks r) m c u) After (λ e u. At n m c u) _ _ v
                (attach-Ensures env _ packet pos v inside (ground arith))
                (λ r u g. count-Ensures r u g)
        ])
    where
      After : Message → World → Type 0
      After r v = At (n + blocks r) (decoded_once m) c v

      release-none :
          (t : Text) (v : World)
          → At (n + 1 + 0) m c v
          → Ensures {A = Message} After (λ e u. At n m c u) (release t (err out_of_memory) v)
      release-none t v k = unfold release in ground arith

      count-Ensures :
          (r : Message) (u : World)
          → At (n + blocks r) m c u
          → Ensures After (λ e v. At n m c v) ((count_decoded >> return r) u)
      count-Ensures r u g = unfold count_decoded ◌>>=◌ in ground arith

  publish-Ensures :
      (env : Env) (packet : List ℕ) (flags : ℕ) (w : World)
      → At n m c w
      → PropertiesFit m packet
      → Ensures
          (λ r w'. At (n + blocks r) (decoded_once m) c w')
          (λ e w'. At n m c w')
          (mqtt_decode_publish env packet flags w)
  unfolding mqtt_decode_publish
  publish-Ensures env packet flags w h fit =
      let After : Message → World → Type 0 = λ r v. At (n + blocks r) (decoded_once m) c v in
      let Failed : Code → World → Type 0 = λ e v. At n m c v in
      let InPacket : ℕ → Type 0 = λ p. p ≤ length packet in
      >>=-Ensures (λ _ v. At n m c v × (ltb (length packet) 2 ≡ false)) After Failed _ _ w
        (fail_if-Ensures (ltb (length packet) 2) invalid_param h)
        λ _ w1 h1.
          >>=-Ensures (λ r v. At (n + 1) m c v × InPacket r.1) After Failed _ _ w1
            (string-Ensures env packet 0 w1 h1.0)
            λ r w2 h2.
              >>=-Ensures (λ p v. At (n + 1) m c v × InPacket p) After Failed _ _ w2
                (release-Ensures InPacket r.0 _ h2.0
                  (skip_packet_id-Yields packet (bit_and (flags / 2) 0x03) r.1 h2.1))
                λ p w3 h3.
                  >>=-Ensures (λ x v. At (n + 1) m c v × (x.mqtt ≡ m)) After Failed get _ w3
                    (h3.0, h3.0.mqtt)
                    λ x w4 h4.
                      >>=-Ensures (λ q v. At (n + 1) m c v × InPacket q) After Failed _ _ w4
                        (release-Ensures InPacket r.0 _ h4.0 (
                          skip_properties-Yields packet x.mqtt.protocol_version p h3.1
                            (λ e. fit (sym (ap (λ s. s.protocol_version) h4.1) ∙ e) p)))
                        λ q w5 h5.
                          deliver-Ensures env packet q r.0 (bit_and (flags / 2) 0x03) _ w5 h5.1 h5.0

  by_type-Ensures :
      (env : Env) (packet_type flags : ℕ) (body : List ℕ) (w : World)
      → At n m c w
      → PropertiesFit m body
      → Ensures
          (λ r w'. At (n + blocks r) (decoded_once m) c w')
          (λ e w'. At n m c w')
          (decode_by_type env packet_type flags body w)
  unfolding decode_by_type
  by_type-Ensures env packet_type flags body w h fit = elim (Bool-cases (packet_type == 3)) [
    | inl e ↦ rw e (publish-Ensures env body flags w h fit)
    | inr e ↦ rw e (ground arith)
  ]

  packet-Ensures :
      (env : Env) (packet : List ℕ) (w : World)
      → 2 ≤ length packet
      → At n m c w
      → LengthsFit m packet
      → Ensures
          (λ r w'. At (n + blocks r) (decoded_once m) c w')
          (λ e w'. At n m c w')
          (decode_packet env packet w)
  unfolding decode_packet
  packet-Ensures env packet w long h fit =
      let After : Message → World → Type 0 = λ r v. At (n + blocks r) (decoded_once m) c v in
      let Failed : Code → World → Type 0 = λ e v. At n m c v in
      >>=-Ensures (λ _ v. At n m c v × Unit {0}) After Failed _ _ w
        (lift-Ensures (λ _. Unit {0}) (read packet 0) h (rw (read-eq-ok packet 0 (omega arith)) tt))
        λ b w1 h1.
          >>=-Ensures (λ r v. At n m c v × ((2 ≤ r.1) × (r.1 ≤ length packet))) After Failed _ _ w1
            (lift-Ensures (λ r. (2 ≤ r.1) × (r.1 ≤ length packet)) _ h1.0
              (mqtt_decode_var_int-Within packet 1 fit.0))
            λ r w2 h2.
              >>=-Ensures (λ _ v. At n m c v × (not (r.1 + r.0 == length packet) ≡ false)) After
                Failed _ _ w2 (fail_if-Ensures _ _ h2.0)
                λ _ w3 h3.
                  >>=-Ensures (λ body v. At n m c v × (body ≡ drop r.1 packet)) After Failed _ _ w3
                    (lift-Ensures (λ body. body ≡ drop r.1 packet) (slice packet r.1 r.0) h3.0
                      (rw (slice-eq-ok packet r.1 r.0 (fits r.1 r.0 h3.1))
                        (take_all r.0 (drop r.1 packet) (rest r.1 r.0 h3.1))))
                    λ body w4 h4. by_type-Ensures env _ _ body w4 h4.0 (behind r.1 body h4.1)
    where
      fits : (p k : ℕ) → not (p + k == length packet) ≡ false → p + k ≤ length packet
      fits p k e = ground arith

      rest : (p k : ℕ) → not (p + k == length packet) ≡ false → length (drop p packet) ≤ k
      rest p k e = ground (arith, length-drop p packet)

      behind : (p : ℕ) (body : List ℕ) → body ≡ drop p packet → PropertiesFit m body
      behind p body e five i =
          subst (HasSmallFifth 4) (sym (drop-drop p i packet) ∙ ap (drop i) (sym e))
            (fit.1 five (p + i))

-- The bytes of a packet that may be NULL.
abbrev pub bytes_in : Option (List ℕ) → List ℕ
bytes_in none = []
bytes_in (some packet) = packet

-- The arguments that pass the tests for NULL and for the shortest packet.
abbrev pub accepts : Bool → Option (List ℕ) → Bool → Bool
accepts adapter none message = false
accepts adapter (some packet) message = adapter && leb 2 (length packet) && message

-- Whichever requests for memory fail, and whatever the bytes are, unless a length of five bytes
-- overflows an `int`, the decoder has no fault: it reads only inside the packet. It returns a message
-- that owns every block it allocated and counts one packet, or an error with no block left over, which
-- it counts unless it refused the arguments. A length does not overflow if its seven bits in a fifth
-- byte are below 8; this is asked of the remaining length and, with MQTT 5, of every place.
pub mqtt_adapter_decode_lem :
    (env : Env) (adapter : Bool) (packet : Option (List ℕ)) (message : Bool) (w : World)
    → LengthsFit w.mqtt (bytes_in packet)
    → Ensures
        (λ r w'. At (w.live + blocks r) (decoded_once w.mqtt) w.coap w')
        (λ e w'.
          At w.live
            (if accepts adapter packet message then failed_once w.mqtt else w.mqtt)
            w.coap
            w')
        (mqtt_adapter_decode env adapter packet message w)
unfolding mqtt_adapter_decode count_errors
mqtt_adapter_decode_lem env adapter none message w fit = ground arith
mqtt_adapter_decode_lem env adapter (some packet) message w fit =
    let decoded : 2 ≤ length packet
        → Ensures (λ r w'. At (w.live + blocks r) (decoded_once w.mqtt) w.coap w')
            (λ e w'. At w.live w.mqtt w.coap w') (decode_packet env packet w) =
      λ long.
        packet-Ensures w.live w.mqtt w.coap env packet w long
          (record { live = refl; mqtt = refl; coap = refl }) fit in
    ground (arith, decoded)
