-- ===== src/Coap/Fields.antt =====
-- Option numbers and lengths, the URI path and the content type.
use paum_io_t.Common.{
  ℕ, ◌+◌, ◌-◌, ◌*◌, ◌/◌, ◌%◌, ◌^◌, List, [], ◌∷◌, ◌++◌, Option, none, some, length, take, ltb, leb,
  ◌==◌, if◌then◌else◌, bit_and, bit_or, ◌&&◌,
}
use paum_io_t.Codes.{invalid_param, packet_malformed, buffer_overflow, out_of_memory}
use paum_io_t.World.{
  Text, codes, Env, M, Result, ok, err, fault, ◌>>=◌, fail, lift, and_then, read, store, until_nul,
  alloc,
}

-- `coap_option_num_t`, as far as the adapter uses it.
abbrev pub option_uri_path : ℕ
option_uri_path = 11

abbrev pub option_content_format : ℕ
option_content_format = 12

-- `coap_option_t`; `value` is NULL if the length is 0.
pub record CoapOption : Type 0 where
  pub number : ℕ
  pub size : ℕ
  pub value : Option (List ℕ)

-- The value that a nibble stands for, and the position after its extension.
unfoldable pub coap_decode_option_ext : List ℕ → ℕ → ℕ → Result (ℕ × ℕ)
unfolding read
coap_decode_option_ext buffer pos base_value =
    if leb (length buffer) pos
    then err invalid_param
    else if ltb base_value 13
    then ok (base_value, pos)
    else if base_value == 13
    then (if leb (length buffer) pos
        then err packet_malformed
        else and_then (read buffer pos) (λ b. ok ((b + 13) % 2 ^ 16, pos + 1)))
    else if base_value == 14
    then (if leb (length buffer) (pos + 1)
        then err packet_malformed
        else and_then (read buffer pos) (λ hi.
          and_then (read buffer (pos + 1))
            (λ lo. ok ((bit_or (hi * 256) lo + 269) % 2 ^ 16, pos + 2))))
    else err packet_malformed

-- The nibble for a `uint16_t`, and the bytes written so far with its extension behind them.
unfoldable pub coap_encode_option_ext : ℕ → ℕ → List ℕ → Result (ℕ × List ℕ)
unfolding store
coap_encode_option_ext value buf_len out =
    if ltb value 13
    then ok (value, out)
    else if ltb value 269
    then (if leb buf_len (length out)
        then err buffer_overflow
        else and_then (store buf_len (value - 13) out) (λ o. ok (13, o)))
    else if ltb value 65804
    then (if leb buf_len (length out + 1)
        then err buffer_overflow
        else and_then (store buf_len ((value - 269) / 256) out)
            (λ o. and_then (store buf_len (bit_and (value - 269) 0xff) o) (λ o'. ok (14, o'))))
    else err invalid_param

abbrev pub slash : ℕ
slash = b'/'

-- `total_len` after the first loop of `coap_build_uri_path`, from 1 on.
unfoldable pub total_length : List CoapOption → ℕ
total_length [] = 1
total_length (o ∷ os) =
    let rest = total_length os in if o.number == option_uri_path then 1 + o.size + rest else rest

-- `strcat` and `strncat` on a block of `size` bytes: the text and its final 0 must fit.
unfoldable pub concat : ℕ → Text → Text → Result Text
concat size path s = if ltb (length path + length s) size then ok (path ++ s) else fault

-- The characters that `strncat(_, o.value, o.length)` takes.
unfoldable pub segment_of : CoapOption → Text
unfolding until_nul
segment_of o = elim (o.value) [ none ↦ [] | some bytes ↦ until_nul (take o.size bytes) ]

-- The second loop.
unfoldable pub append_segments : ℕ → List CoapOption → Text → Result Text
append_segments size [] path = ok path
append_segments size (o ∷ os) path =
    let separator = if ltb 1 (length path) then slash ∷ [] else [] in
    let added =
      and_then (concat size path separator)
        (λ p. and_then (concat size p (segment_of o)) (append_segments size os)) in
    let skipped = append_segments size os path in
    if o.number == option_uri_path then added else skipped

-- `options` is NULL if there are none.
unfoldable pub coap_build_uri_path : Env → List CoapOption → M Text
unfolding ◌>>=◌ alloc total_length append_segments concat segment_of
coap_build_uri_path env [] = fail invalid_param
coap_build_uri_path env (o ∷ os) = do
  granted ← alloc env
  if granted
      then lift (append_segments (total_length (o ∷ os) + 1) (o ∷ os) (slash ∷ []))
      else fail out_of_memory

unfoldable pub coap_get_content_type : ℕ → Text
coap_get_content_type format =
    if format == 0
    then codes "text/plain"
    else if format == 50
    then codes "application/json"
    else if format == 41
    then codes "application/xml"
    else if format == 42
    then codes "application/octet-stream"
    else if format == 60
    then codes "application/cbor"
    else codes "application/octet-stream"

-- `format = (format << 8) | value[j]` over the bytes of an option, in a `uint16_t`.
unfoldable pub format_of : List ℕ → ℕ → ℕ
format_of [] format = format
format_of (b ∷ bs) format = format_of bs (bit_or (format * 256 % 2 ^ 16) b)

-- The format of the first Content-Format option of at most two bytes.
unfoldable pub content_format : List CoapOption → Option ℕ
unfolding format_of
content_format [] = none
content_format (o ∷ os) =
    let rest = content_format os in
    if o.number == option_content_format && leb o.size 2
    then some (elim (o.value) [ none ↦ 0 | some bytes ↦ format_of (take o.size bytes) 0 ])
    else rest
