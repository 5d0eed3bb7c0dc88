-- ===== src/Coap/Making.antt =====
-- The message that the decoder makes of a parsed packet.
use paum_io_t.Common.{
  ℕ, ◌≡◌, refl, ap, ◌∙◌, arith, List, [], ◌∷◌, Option, none, some, length, ◌==◌, if◌then◌else◌,
  lt→ltb,
}
use paum_io_t.Codes.{success, is_success}
use paum_io_t.World.{Text, Env, Grants, World, ◌>>=◌, ◌>>◌, return, freed, free}
use paum_io_t.World.Rules.{Ensures, >>=-Ensures}
use paum_io_t.Message.{Message, coap, set_payload}
use paum_io_t.Message.Laws.{IsExact}
use paum_io_t.Mqtt.Format.{payload_bytes}
use paum_io_t.Mqtt.Delivery.{Never, IsFilled, set_payload-delivers, IsBlank, create-delivers}
use paum_io_t.Coap.Fields.{CoapOption, coap_build_uri_path}
use paum_io_t.Coap.Parse.{CoapMessage, free_values, coap_free_message}
use paum_io_t.Coap.Decode.{count_decoded, content_type_of, attach_payload, deliver}
use paum_io_t.Coap.Handlers.{or_give_up-Ensures}

-- What a decoded message says: its destination, QoS and bytes.
pub record Says (destination : Text) (qos : ℕ) (bytes : List ℕ) (r : Message) : Type 0 where
  pub to : r.destination ≡ some destination
  pub at : r.metadata.qos ≡ qos
  pub via : r.metadata.protocol ≡ coap
  pub size : r.payload_len ≡ length bytes
  pub holds : payload_bytes r.payload ≡ bytes

module _ (env : Env) (grants : Grants env) where
  payload_of-attached :
      (msg : Message) (p : CoapMessage) (payload : Option (List ℕ)) (n : ℕ) (w : World)
      → IsExact payload n
      → msg.payload ≡ none
      → msg.payload_len ≡ 0
      → Ensures
          (λ r v. IsFilled msg (payload_bytes payload) r)
          Never
          (attach_payload env msg (record p { payload = payload; payload_len = n }) w)
  unfolding attach_payload
  payload_of-attached msg p none n w e h k = ground arith
  payload_of-attached msg p (some []) n w e h k = absurd (omega (arith, e.0, e.1))
  payload_of-attached msg p (some (b ∷ bs)) n w e h k =
      rw (e.1, lt→ltb 0 (length (b ∷ bs)) (omega arith))
        (>>=-Ensures
          (λ r v.
            r ≡ (success, record msg { payload = some (b ∷ bs); payload_len = length (b ∷ bs) }))
          (λ r v. IsFilled msg (b ∷ bs) r) Never
          (set_payload env msg (some (b ∷ bs)) (length (b ∷ bs))) _ w
          (set_payload-delivers env grants msg b bs w)
          (λ r v g. rw g (unfold is_success in (refl, refl, refl, refl))))

  free_values-done :
      (os : List CoapOption) (w : World) → Ensures (λ u v. Unit {0}) Never (free_values os w)
  unfolding free_values ◌>>=◌
  free_values-done [] w = tt
  free_values-done (o ∷ os) w = free_values-done os (freed o.value w)

  pub coap_free_message-done :
      (p : CoapMessage) (w : World) → Ensures (λ u v. Unit {0}) Never (coap_free_message p w)
  unfolding coap_free_message
  coap_free_message-done p w =
      let array : Option CoapOption = elim (p.options) [ [] ↦ none | o ∷ os ↦ some o ] in
      >>=-Ensures (λ u v. Unit {0}) (λ u v. Unit {0}) Never (free_values p.options)
        (λ _. free array >> free p.payload) w (free_values-done p.options w)
        λ u v h. unfold ◌>>=◌ in tt

  -- The message has the path and the content type that the options give, and the payload.
  pub deliver-Says :
      (p : CoapMessage) (destination : Text) (described : Option Text) (w : World)
      → IsExact p.payload p.payload_len
      → ((v : World) → Ensures (λ r u. r ≡ destination) Never (coap_build_uri_path env p.options v))
      → ((v : World) → Ensures (λ r u. r ≡ described) Never (content_type_of env p v))
      → Ensures
          (λ r v.
            Says destination (if p.type == 0 then 1 else 0) (payload_bytes p.payload) r
            × (r.metadata.content_type ≡ described))
          Never
          (deliver env p w)
  unfolding deliver
  deliver-Says p destination described w exact builds describes =
      >>=-Ensures (λ x v. IsBlank x × (v.mqtt ≡ w.mqtt)) After Never _ _ w
        (create-delivers env grants w)
        (elim [
          | none ↦ λ v k. absurd k.0
          | some fresh ↦ λ v k.
              >>=-Ensures (λ path u. path ≡ destination) After Never _ _ v
                (or_give_up-Ensures (λ path u. path ≡ destination) Never Never _ p
                  (coap_build_uri_path env p.options) v (builds v) (λ e u h. absurd h))
                λ path u e.
                  >>=-Ensures (λ c y. c ≡ described) After Never (content_type_of env p) _ u
                    (describes u)
                    λ c y d.
                      >>=-Ensures
                        (λ r x. IsFilled (filled fresh path c) (payload_bytes p.payload) r) After
                        Never _ _ y
                        (payload_of-attached (filled fresh path c) p p.payload p.payload_len y exact
                          k.0.0 k.0.1)
                        λ r x h. finish fresh path c r x e d h
        ])
    where
      After : Message → World → Type 0
      After r v =
          Says destination (if p.type == 0 then 1 else 0) (payload_bytes p.payload) r
          × (r.metadata.content_type ≡ described)

      filled : Message → Text → Option Text → Message
      filled fresh path c = record fresh {
        destination = some path;
        metadata = record (fresh.metadata) {
          protocol = coap;
          qos = if p.type == 0 then 1 else 0;
          content_type = c;
        };
      }

      finish :
          (fresh : Message) (path : Text) (c : Option Text) (r : Message) (x : World)
          → path ≡ destination
          → c ≡ described
          → IsFilled (filled fresh path c) (payload_bytes p.payload) r
          → Ensures After Never ((coap_free_message p >> (count_decoded >> return r)) x)
      finish fresh path c r x e d h =
          >>=-Ensures (λ u v. Unit {0}) After Never (coap_free_message p) _ x
            (coap_free_message-done p x) λ u v k. unfold count_decoded ◌>>=◌ in (says, kept)
        where
          says : Says destination (if p.type == 0 then 1 else 0) (payload_bytes p.payload) r
          says = record {
            to = h.0 ∙ ap some e;
            at = ap (λ x. x.qos) h.1;
            via = ap (λ x. x.protocol) h.1;
            size = h.2;
            holds = h.3;
          }

          kept : r.metadata.content_type ≡ described
          kept = ap (λ x. x.content_type) h.1 ∙ d
