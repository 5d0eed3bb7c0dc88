-- ===== src/Coap/Delivery.antt =====
-- What the CoAP decoder does after parsing: the blocks it keeps, and the counters.
use paum_io_t.Common.{
  ℕ, ◌+◌, ◌≡◌, refl, ap, arith, not, ◌||◌, ◌⊎◌, Bool, true, false, List, Option, none, some, length,
  ltb, if◌then◌else◌, Bool-cases, inl, inr,
}
use paum_io_t.Codes.{Code, is_success, out_of_memory}
use paum_io_t.World.{Text, Env, World, MqttState, CoapState, ◌>>=◌, ◌>>◌, return, fail}
use paum_io_t.World.Rules.{At, Ensures, >>=-Ensures, Ensures-weaken}
use paum_io_t.Message.{Message, message_create, set_payload}
use paum_io_t.Message.Laws.{one, blocks, owned, IsExact, IsFresh, message_create-At, set_payload-At}
use paum_io_t.Coap.Fields.{coap_build_uri_path}
use paum_io_t.Coap.Parse.{header_size, CoapMessage, coap_free_message, coap_decode_message}
use paum_io_t.Coap.Decode.{
  count_decoded, count_errors, give_up, attach_payload, deliver, coap_adapter_decode,
}
use paum_io_t.Coap.Blocks.{Over, parsed_blocks}
use paum_io_t.Coap.Parsing.{Parsed, coap_decode_message-At}
use paum_io_t.Coap.Handlers.{decoded_once, failed_once, or_give_up-Ensures, count_errors-Ensures}
use paum_io_t.Coap.Memory.{
  Exactly, coap_free_message-At, give_up-At, content_type-At, build_path-At,
}

module _ (n : ℕ) (m : MqttState) (c : CoapState) where
  -- Both messages are allocated.
  abbrev Both : CoapMessage → Message → World → Type 0
  Both p msg v = At (n + parsed_blocks p + blocks msg) m c v

  attach-At :
      (env : Env) (msg : Message) (p : CoapMessage) (w : World)
      → IsExact p.payload p.payload_len
      → Both p msg w
      → Ensures (λ r v. Both p r v) (Exactly n m c) (attach_payload env msg p w)
  unfolding attach_payload
  attach-At env msg p w exact at = elim (Bool-cases (ltb 0 p.payload_len)) [
    | inr empty ↦ rw empty at
    | inl some_bytes ↦ rw some_bytes (copied p.payload p.payload_len exact some_bytes)
  ]
    where
      finish :
          (r : Code × Message) (v : World)
          → Both p r.1 v
          → (done : Bool)
          → Ensures
              (λ a u. Both p a u)
              (Exactly n m c)
              ((if done then return (r.1) else give_up r.1 p r.0) v)
      finish r v k true = k
      finish r v k false = give_up-At n m c (λ (a : Message) u. Both p a u) r.1 p r.0 v k

      copied :
          (payload : Option (List ℕ)) (len : ℕ)
          → IsExact payload len
          → ltb 0 len ≡ true
          → Ensures
              (λ r v. Both p r v)
              (Exactly n m c)
              ((set_payload env msg payload len >>= (λ (code, msg').
                  if is_success code then return msg' else give_up msg' p code))
                w)
      copied none len e pos = absurd (ground (arith, e, pos))
      copied (some bytes) len e pos =
          >>=-Ensures (λ r v. Both p r.1 v) (λ r v. Both p r v) (Exactly n m c)
            (set_payload env msg (some bytes) len) _ w
            (set_payload-At env msg bytes len (n + parsed_blocks p) w _ (omega (arith, e.1)) at)
            (λ r v k. finish r v k (is_success r.0))

  -- The message that a parsed one becomes is counted, and the parsed one is released. An error
  -- releases both.
  pub deliver-At :
      (env : Env) (p : CoapMessage) (w : World)
      → IsExact p.payload p.payload_len
      → At (n + parsed_blocks p) m c w
      → Ensures (λ r v. At (n + blocks r) m (decoded_once c) v) (Exactly n m c) (deliver env p w)
  unfolding deliver
  deliver-At env p w exact at =
      >>=-Ensures (λ x v. At (n + parsed_blocks p + owned x) m c v × IsFresh x) After
        (Exactly n m c) (message_create env) _ w
        (message_create-At env w (n + parsed_blocks p) (Exactly n m c) at)
        (elim [
          | none ↦ λ v k. refused v k.0
          | some fresh ↦ λ v k.
              >>=-Ensures (λ _ u. At (n + parsed_blocks p + blocks fresh + 1) m c u) After
                (Exactly n m c) _ _ v
                (or_give_up-Ensures (λ _ u. At (n + parsed_blocks p + blocks fresh + 1) m c u)
                  (λ e u. At (n + parsed_blocks p + blocks fresh) m c u) (Exactly n m c) _ p
                  (coap_build_uri_path env p.options) v (build_path-At env p.options _ m c v k.0)
                  (λ e u h.
                    give_up-At n m c
                      (λ (_ : Text) u. At (n + parsed_blocks p + blocks fresh + 1) m c u) _ p e u
                      h))
                λ path u h.
                  >>=-Ensures (λ t u. At (n + parsed_blocks p + blocks fresh + 1 + one t) m c u)
                    After (Exactly n m c) _ _ u (content_type-At env p _ m c u (Exactly n m c) h)
                    λ content_type x g.
                      >>=-Ensures (λ r x. Both p r x) After (Exactly n m c) _ _ x
                        (attach-At env _ p x exact (ground arith)) λ r y l. finish r y l
        ])
    where
      After : Message → World → Type 0
      After r v = At (n + blocks r) m (decoded_once c) v

      refused :
          (v : World)
          → At (n + parsed_blocks p + 0) m c v
          → Ensures After (Exactly n m c) ((coap_free_message p >> fail out_of_memory) v)
      refused v k =
          >>=-Ensures (λ _ u. At n m c u) After (Exactly n m c) (coap_free_message p)
            (λ _. fail out_of_memory) v
            (coap_free_message-At n m c p v (Exactly n m c)
              (record { live = omega (arith, k.live); mqtt = k.mqtt; coap = k.coap }))
            λ _ u h. h

      counted :
          (r : Message) (v : World)
          → At (n + blocks r) m c v
          → Ensures After (Exactly n m c) ((count_decoded >> return r) v)
      counted r v h = unfold count_decoded ◌>>=◌ in ground arith

      finish :
          (r : Message) (v : World)
          → Both p r v
          → Ensures After (Exactly n m c) ((coap_free_message p >> (count_decoded >> return r)) v)
      finish r v h =
          >>=-Ensures (λ _ u. At (n + blocks r) m c u) After (Exactly n m c) (coap_free_message p)
            (λ _. count_decoded >> return r) v
            (coap_free_message-At (n + blocks r) m c p v (Exactly n m c)
              (record { live = omega (arith, h.live); mqtt = h.mqtt; coap = h.coap }))
            λ _ u k. counted r u k

-- The message owns what was allocated for it, and one more packet is counted.
abbrev pub Delivered : World → Message → World → Type 0
Delivered w r v = At (w.live + blocks r) w.mqtt (decoded_once w.coap) v

-- Either the parser's error is counted and no block of before is lost, or nothing is changed.
abbrev pub Refused : World → Code → World → Type 0
Refused w e v = Over w.live w.mqtt (failed_once w.coap) v ⊎ At w.live w.mqtt w.coap v

parse_and_deliver-Ensures :
    (env : Env) (packet : List ℕ) (w : World)
    → Ensures
        (Delivered w)
        (Refused w)
        ((count_errors (coap_decode_message env packet) >>= deliver env) w)
parse_and_deliver-Ensures env packet w =
    >>=-Ensures (Parsed w.live w.mqtt w.coap) (Delivered w) (Refused w)
      (count_errors (coap_decode_message env packet)) (deliver env) w
      (count_errors-Ensures (Parsed w.live w.mqtt w.coap) (λ e v. Over w.live w.mqtt w.coap v)
        (Refused w) (coap_decode_message env packet) w
        (coap_decode_message-At w.live w.mqtt w.coap env packet w
          (record { live = refl; mqtt = refl; coap = refl }))
        (λ e v h. inl (record { live = h.live; mqtt = h.mqtt; coap = ap failed_once h.coap })))
      λ p v h.
        Ensures-weaken (Delivered w) (Delivered w) (Exactly w.live w.mqtt w.coap) (Refused w) _
          (deliver-At w.live w.mqtt w.coap env p v h.1.0 h.0) (λ r x g. g) (λ e x g. inr g)

-- Whatever the bytes are, and whichever requests for memory fail, the decoder has no fault: it reads
-- only inside the packet, and it writes only inside the blocks that it allocates. It returns a
-- message that owns every block that it allocated, counting one packet, or an error. An error is
-- either counted, with no block of the caller's released, or leaves the blocks and the counters as
-- they were.
pub coap_adapter_decode_lem :
    (env : Env) (adapter : Bool) (packet : Option (List ℕ)) (message : Bool) (w : World)
    → Ensures (Delivered w) (Refused w) (coap_adapter_decode env adapter packet message w)
unfolding coap_adapter_decode
coap_adapter_decode_lem env adapter none message w =
    inr (record { live = refl; mqtt = refl; coap = refl })
coap_adapter_decode_lem env adapter (some packet) message w =
    elim (Bool-cases (not adapter || ltb (length packet) header_size || not message)) [
      | inl e ↦ rw e (inr (record { live = refl; mqtt = refl; coap = refl }))
      | inr e ↦ rw e (parse_and_deliver-Ensures env packet w)
    ]
