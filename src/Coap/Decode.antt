-- ===== src/Coap/Decode.antt =====
-- From a CoAP packet to a message.
use paum_io_t.Common.{
  ℕ, Bool, not, ◌||◌, List, Option, none, some, length, ltb, ◌==◌, if◌then◌else◌,
}
use paum_io_t.Codes.{Code, is_success, invalid_param, out_of_memory}
use paum_io_t.World.{Text, Env, M, ok, err, fault, ◌>>=◌, ◌>>◌, return, fail, add64, strdup}
use paum_io_t.Message.{Message, coap, message_create, message_free, set_payload}
use paum_io_t.Coap.Fields.{coap_build_uri_path, coap_get_content_type, content_format}
use paum_io_t.Coap.Parse.{CoapMessage, header_size, coap_decode_message, coap_free_message}

-- `g_coap_state.packets_decoded++`
unfoldable pub count_decoded : M (Unit {0})
count_decoded w = (
  ok tt,
  record w { coap = record (w.coap) { packets_decoded = add64 w.coap.packets_decoded 1 } },
)

-- Only an error of `coap_decode_message` is counted.
unfoldable pub count_errors {ℓ} : {A : Type ℓ} → M A → M A
count_errors m w =
    let (r, w') = m w in
    elim r [
      | ok a ↦ (ok a, w')
      | err e ↦ (err e, record w' { coap = record (w'.coap) { errors = add64 w'.coap.errors 1 } })
      | fault ↦ (fault, w')
    ]

-- `message_free(msg); coap_free_message(&coap_msg); return result;`
unfoldable pub give_up {ℓ} : {A : Type ℓ} → Message → CoapMessage → Code → M A
unfolding ◌>>=◌ message_free coap_free_message
give_up msg coap_msg e = do message_free (some msg); coap_free_message coap_msg; fail e

-- A step whose error gives up both messages.
unfoldable pub or_give_up {ℓ} : {A : Type ℓ} → Message → CoapMessage → M A → M A
unfolding give_up
or_give_up msg coap_msg m w =
    let (r, w') = m w in
    elim r [ ok a ↦ (ok a, w') | err e ↦ give_up msg coap_msg e w' | fault ↦ (fault, w') ]

module _ (env : Env) where
  -- "Set content type from options": the string, or what `strdup` leaves if it fails.
  unfoldable pub content_type_of : CoapMessage → M (Option Text)
  unfolding strdup
  content_type_of coap_msg = elim (content_format coap_msg.options) [
    | none ↦ return none
    | some format ↦ strdup env (coap_get_content_type format)
  ]

  -- "Copy payload"
  unfoldable pub attach_payload : Message → CoapMessage → M Message
  attach_payload msg coap_msg =
      if ltb 0 coap_msg.payload_len
      then (do
        (code, msg') ← set_payload env msg coap_msg.payload coap_msg.payload_len
        if is_success code then return msg' else give_up msg' coap_msg code)
      else return msg

  -- From "Create internal message" on.
  unfoldable pub deliver : CoapMessage → M Message
  deliver coap_msg = do
    created ← message_create env
    elim created [
      | none ↦ coap_free_message coap_msg >> fail out_of_memory
      | some fresh ↦ do
        let typed = record fresh {
          metadata = record (fresh.metadata) {
            protocol = coap;
            qos = if coap_msg.type == 0 then 1 else 0;
          };
        }
        path ← or_give_up typed coap_msg (coap_build_uri_path env coap_msg.options)
        content_type ← content_type_of coap_msg
        msg ←
            attach_payload
              (record typed {
                destination = some path;
                metadata = record (typed.metadata) { content_type = content_type };
              })
              coap_msg
        coap_free_message coap_msg
        count_decoded
        return msg
    ]

  -- A pointer argument that is only tested for NULL is a `Bool`.
  unfoldable pub coap_adapter_decode : Bool → Option (List ℕ) → Bool → M Message
  coap_adapter_decode adapter none message = fail invalid_param
  coap_adapter_decode adapter (some packet) message =
      if not adapter || ltb (length packet) header_size || not message
      then fail invalid_param
      else count_errors (coap_decode_message env packet) >>= deliver
