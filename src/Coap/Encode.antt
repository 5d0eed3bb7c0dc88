-- ===== src/Coap/Encode.antt =====
-- From a message to a CoAP packet.
use paum_io_t.Common.{
  ℕ, zero, suc, ◌+◌, ◌-◌, ◌*◌, ◌/◌, ◌%◌, ◌^◌, Bool, not, ◌||◌, List, [], ◌∷◌, Option, none, some,
  length, set, ltb, leb, ◌==◌, if◌then◌else◌, bit_and, bit_or,
}
use paum_io_t.Codes.{invalid_param, buffer_overflow, protocol}
use paum_io_t.World.{
  Text, M, Result, ok, err, fault, ◌>>=◌, ◌>>◌, return, fail, fail_if, lift, get, put, store,
  store_all, add64, and_then,
}
use paum_io_t.Message.{Message, coap, same_protocol, load}
use paum_io_t.Coap.Fields.{option_uri_path, slash, coap_encode_option_ext}
use paum_io_t.Coap.Parse.{payload_marker, header_size}

-- `strchr(path, '/')`: the characters before the first slash, and those after it if there is one.
unfoldable pub split_segment : Text → Text × Option Text
split_segment [] = ([], none)
split_segment (c ∷ cs) =
    let rest = split_segment cs in if c == slash then ([], some cs) else (c ∷ rest.0, rest.1)

-- `packet[i] = b` at a position that was passed.
unfoldable pub patch : ℕ → ℕ → List ℕ → Result (List ℕ)
patch i b out = if ltb i (length out) then ok (set out i (b % 256)) else fault

-- One Uri-Path option. The byte at `option_header_pos` is set when both nibbles are known.
unfoldable pub encode_option : Text → ℕ → ℕ → List ℕ → Result (List ℕ)
encode_option segment prev packet_len out =
    let option_delta = (option_uri_path + 2 ^ 16 - prev) % 2 ^ 16 in
    let option_header_pos = length out in
    if leb packet_len (length out)
    then err buffer_overflow
    else and_then (store packet_len 0 out) (λ reserved.
      and_then (coap_encode_option_ext option_delta packet_len reserved)
        (λ (delta_nibble, with_delta).
          and_then (coap_encode_option_ext (length segment % 2 ^ 16) packet_len with_delta)
            (λ (length_nibble, with_length).
              and_then
                (patch option_header_pos (bit_or (delta_nibble * 16) length_nibble) with_length)
                (λ patched.
                  if ltb packet_len (length patched + length segment)
                  then err buffer_overflow
                  else store_all packet_len segment patched))))

-- The `while` loop on `path`, where `none` is NULL. A round takes a character at least.
unfoldable pub encode_path : ℕ → Option Text → ℕ → ℕ → List ℕ → Result (List ℕ)
encode_path fuel none prev packet_len out = ok out
encode_path fuel (some []) prev packet_len out = ok out
encode_path zero (some (c ∷ cs)) prev packet_len out = fault
encode_path (suc fuel) (some (c ∷ cs)) prev packet_len out =
    let (segment, next) = split_segment (c ∷ cs) in
    let skipped = encode_path fuel next prev packet_len out in
    let added =
      and_then (encode_option segment prev packet_len out)
        (λ o. encode_path fuel next option_uri_path packet_len o) in
    if ltb 0 (length segment) then added else skipped

-- `path` without a leading slash.
unfoldable pub strip_slash : Text → Text
strip_slash [] = []
strip_slash (c ∷ cs) = if c == slash then cs else c ∷ cs

-- The header; takes the next message identifier.
unfoldable pub encode_header : Message → ℕ → M (List ℕ)
unfolding ◌>>=◌ store
encode_header message packet_len = do
  fail_if (ltb packet_len header_size) buffer_overflow
  let type : ℕ = if ltb 0 message.qos then 0 else 1
  w ← get
  let msg_id = w.coap.next_message_id
  put (record w { coap = record (w.coap) { next_message_id = (msg_id + 1) % 2 ^ 16 } })
  lift (
      and_then (store packet_len (bit_or (bit_or 64 (type * 16)) 0) []) (λ a.
        and_then (store packet_len 1 a) (λ b.
          and_then (store packet_len (msg_id / 256) b) (store packet_len (bit_and msg_id 0xff)))))

-- "Add payload if present"
unfoldable pub encode_payload : Message → ℕ → List ℕ → M (List ℕ)
unfolding ◌>>=◌ load store store_all
encode_payload message packet_len out =
    if ltb 0 message.payload_len
    then (do
      fail_if (leb packet_len (length out)) buffer_overflow
      marked ← lift (store packet_len payload_marker out)
      fail_if (ltb packet_len (length marked + message.payload_len)) buffer_overflow
      bytes ← load message.payload message.payload_len
      lift (store_all packet_len bytes marked))
    else return out

-- `g_coap_state.packets_encoded++`
unfoldable pub count_encoded : M (Unit {0})
count_encoded w = (
  ok tt,
  record w { coap = record (w.coap) { packets_encoded = add64 w.coap.packets_encoded 1 } },
)

-- From "Encode header" on. The bytes that are written; `*bytes_written` is their number.
unfoldable pub encode_message : Message → Text → ℕ → M (List ℕ)
encode_message message destination packet_len = do
  header ← encode_header message packet_len
  let path = strip_slash destination
  with_path ← lift (encode_path (length path) (some path) 0 packet_len header)
  packet ← encode_payload message packet_len with_path
  count_encoded
  return packet

-- The first, third and last argument say whether `adapter`, `packet` and `bytes_written` are not
-- NULL; `packet_len` is the size of the caller's buffer.
unfoldable pub coap_adapter_encode : Bool → Option Message → Bool → ℕ → Bool → M (List ℕ)
coap_adapter_encode adapter none packet packet_len bytes_written = fail invalid_param
coap_adapter_encode adapter (some message) packet packet_len bytes_written =
    if not adapter || not packet || not bytes_written
    then fail invalid_param
    else if not (same_protocol message.protocol coap)
    then fail protocol
    else elim (message.destination) [
      | none ↦ fail invalid_param
      | some destination ↦ encode_message message destination packet_len
    ]
