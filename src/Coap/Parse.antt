-- ===== src/Coap/Parse.antt =====
-- From a packet to a CoAP message.
use paum_io_t.Common.{false}
use paum_io_t.Common.{
  ℕ, zero, suc, ◌+◌, ◌-◌, ◌*◌, ◌/◌, ◌%◌, ◌^◌, Bool, not, ◌&&◌, List, [], ◌∷◌, ◌++◌, Option, none,
  some, length, ltb, ◌==◌, if◌then◌else◌, bit_and, bit_or,
}
use paum_io_t.Codes.{invalid_param, packet_malformed, out_of_memory, protocol_violation}
use paum_io_t.World.{
  Env, M, ok, fault, ◌>>=◌, ◌>>◌, return, fail, fail_if, lift, read, slice, free, alloc, Result,
  and_then, if_read,
}
use paum_io_t.Coap.Fields.{CoapOption, coap_decode_option_ext}

abbrev pub payload_marker : ℕ
payload_marker = 0xff

abbrev pub header_size : ℕ
header_size = 4

-- `coap_message_t`. `options` is NULL, and `num_options` 0, if the list is empty.
pub record CoapMessage : Type 0 where
  pub version : ℕ
  pub type : ℕ
  pub token_len : ℕ
  pub code : ℕ
  pub message_id : ℕ
  pub token : List ℕ
  pub options : List CoapOption
  pub payload : Option (List ℕ)
  pub payload_len : ℕ

module _ (env : Env) where
  -- `realloc` of the array of `n` options: a new block only if there was none.
  unfoldable pub realloc_options : ℕ → M Bool
  realloc_options n w =
      let granted = env.malloc w.calls in
      (
        ok granted,
        record w { calls = w.calls + 1; live = if granted && n == 0 then w.live + 1 else w.live },
      )

  -- `malloc` and `memcpy` of `n` bytes at `pos`, or NULL if `n` is 0.
  unfoldable pub take_bytes : List ℕ → ℕ → ℕ → M (Option (List ℕ))
  unfolding ◌>>=◌ alloc slice
  take_bytes packet pos n =
      if ltb 0 n
      then (do
        granted ← alloc env
        if granted
            then (do bytes ← lift (slice packet pos n); return (some bytes))
            else fail out_of_memory)
      else return none

  -- One round of the option loop at `pos`, after the option number `prev` and `n` options.
  unfoldable pub decode_option : List ℕ → ℕ → ℕ → ℕ → M (CoapOption × ℕ)
  decode_option packet pos prev n = do
    option_header ← lift (read packet pos)
    let delta_nibble = bit_and (option_header / 16) 0x0f
    let length_nibble = bit_and option_header 0x0f
    (option_delta, after_delta) ← lift (coap_decode_option_ext packet (pos + 1) delta_nibble)
    (option_length, after_length) ← lift (coap_decode_option_ext packet after_delta length_nibble)
    fail_if (ltb (length packet) (after_length + option_length)) packet_malformed
    granted ← realloc_options n
    fail_if (not granted) out_of_memory
    value ← take_bytes packet after_length option_length
    return (
      record { number = (prev + option_delta) % 2 ^ 16; size = option_length; value = value },
      after_length + option_length,
    )

  -- The loop's test: there is a byte at `pos`, and it is not the payload marker.
  unfoldable pub at_option : List ℕ → ℕ → Result Bool
  at_option packet pos =
      if ltb pos (length packet)
      then and_then (read packet pos) (λ b. ok (not (b == payload_marker)))
      else ok false

  -- The options and the position after them. A round takes a byte at least, so the length of the
  -- packet is enough fuel.
  unfoldable pub decode_options : ℕ → List ℕ → ℕ → ℕ → List CoapOption → M (List CoapOption × ℕ)
  decode_options zero packet pos prev options = lift fault
  decode_options (suc fuel) packet pos prev options =
      let next = do
        (option, pos') ← decode_option packet pos prev (length options)
        decode_options fuel packet pos' option.number (options ++ (option ∷ []))
      in if_read (at_option packet pos) next (return (options, pos))

  -- The test of "Decode payload".
  unfoldable pub at_payload : List ℕ → ℕ → Result Bool
  at_payload packet pos =
      if ltb pos (length packet)
      then and_then (read packet pos) (λ b. ok (b == payload_marker))
      else ok false

  -- "Decode payload"
  unfoldable pub decode_payload : List ℕ → ℕ → M (Option (List ℕ) × ℕ)
  decode_payload packet pos =
      if_read (at_payload packet pos)
        (do
          payload ← take_bytes packet (pos + 1) (length packet - (pos + 1))
          return (payload, length packet - (pos + 1)))
        (return (none, 0))

  -- From "Decode token" on.
  unfoldable pub decode_body : List ℕ → ℕ → ℕ → ℕ → ℕ → ℕ → M CoapMessage
  decode_body packet version type token_len code message_id = do
    fail_if (ltb (length packet) (4 + token_len)) packet_malformed
    token ← lift (slice packet 4 token_len)
    (options, pos) ← decode_options (suc (length packet)) packet (4 + token_len) 0 []
    (payload, payload_len) ← decode_payload packet pos
    return (record {
      version = version;
      type = type;
      token_len = token_len;
      code = code;
      message_id = message_id;
      token = token;
      options = options;
      payload = payload;
      payload_len = payload_len;
    })

  unfoldable pub coap_decode_message : List ℕ → M CoapMessage
  coap_decode_message packet = do
    fail_if (ltb (length packet) header_size) invalid_param
    ver_type_tkl ← lift (read packet 0)
    let version = bit_and (ver_type_tkl / 64) 0x03
    let type = bit_and (ver_type_tkl / 16) 0x03
    let token_len = bit_and ver_type_tkl 0x0f
    fail_if (not (version == 1)) protocol_violation
    fail_if (ltb 8 token_len) packet_malformed
    code ← lift (read packet 1)
    hi ← lift (read packet 2)
    lo ← lift (read packet 3)
    decode_body packet version type token_len code (bit_or (hi * 256) lo)

-- The loop of `coap_free_message`.
unfoldable pub free_values : List CoapOption → M (Unit {0})
unfolding ◌>>=◌
free_values [] = return tt
free_values (o ∷ os) = free o.value >> free_values os

unfoldable pub coap_free_message : CoapMessage → M (Unit {0})
unfolding ◌>>=◌ free_values
coap_free_message msg = do
  free_values msg.options
  free (elim (msg.options) [ [] ↦ none | o ∷ os ↦ some o ])
  free msg.payload
