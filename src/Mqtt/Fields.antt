-- ===== src/Mqtt/Fields.antt =====
-- The fields of a packet: variable length integers and strings. Their pointers to local variables
-- are never NULL, and the buffer's was tested by the adapter.
use paum_io_t.Common.{
  ℕ, zero, suc, ◌+◌, ◌*◌, ◌/◌, ◌%◌, ◌^◌, List, [], ◌∷◌, length, take, drop, ltb, leb, ◌==◌,
  if◌then◌else◌, bit_and, bit_or,
}
use paum_io_t.Codes.{invalid_param, packet_malformed, buffer_overflow, out_of_memory}
use paum_io_t.World.{
  Text, Env, M, Result, ok, err, fault, ◌>>=◌, ◌>>◌, return, fail, fail_if, lift, and_then, read,
  slice, store, store_all, until_nul, alloc,
}

-- The `do` loop on the bytes from `pos` on. `(byte & 0x7F) * multiplier` is an `int`: if it overflows,
-- the behaviour is undefined, which is a fault here. It is added to the `uint32_t` modulo 2 ^ 32.
unfoldable pub var_int_loop : List ℕ → ℕ → ℕ → ℕ → Result (ℕ × ℕ)
var_int_loop [] pos val multiplier = err packet_malformed
var_int_loop (byte ∷ rest) pos val multiplier =
    let product = bit_and byte 0x7f * multiplier in
    let val' = (val + product) % 2 ^ 32 in
    let more = var_int_loop rest (pos + 1) val' (multiplier * 128) in
    if leb (2 ^ 31) product
    then fault
    else if ltb (128 * 128 * 128) multiplier
    then err packet_malformed
    else (if bit_and byte 0x80 == 0 then ok (val', pos + 1) else more)

-- The value and the position after it.
unfoldable pub mqtt_decode_var_int : List ℕ → ℕ → Result (ℕ × ℕ)
mqtt_decode_var_int buffer pos =
    if leb (length buffer) pos then err invalid_param else var_int_loop (drop pos buffer) pos 0 1

-- `out` is what the `do` loop has written. A `uint32_t` needs at most five rounds.
unfoldable pub encode_var_int_loop : ℕ → ℕ → ℕ → List ℕ → Result (List ℕ)
unfolding store
encode_var_int_loop zero value buf_len out = fault
encode_var_int_loop (suc fuel) value buf_len out =
    let value' = value / 128 in
    let low = value % 128 in
    let byte = if ltb 0 value' then bit_or low 0x80 else low in
    let rounds = λ (out' : List ℕ). encode_var_int_loop fuel value' buf_len out' in
    if leb buf_len (length out)
    then err buffer_overflow
    else and_then (store buf_len byte out) (λ out'. if ltb 0 value' then rounds out' else ok out')

unfoldable pub mqtt_encode_var_int : ℕ → ℕ → Result (List ℕ)
unfolding encode_var_int_loop
mqtt_encode_var_int value buf_len =
    if ltb buf_len 1 then err invalid_param else encode_var_int_loop 5 value buf_len []

-- A big-endian `uint16_t`.
unfoldable pub read_u16 : List ℕ → ℕ → Result ℕ
read_u16 buffer pos =
    and_then (read buffer pos)
      (λ hi. and_then (read buffer (pos + 1)) (λ lo. ok (bit_or (hi * 256) lo)))

-- The string and the position after it.
unfoldable pub mqtt_decode_string : Env → List ℕ → ℕ → M (Text × ℕ)
mqtt_decode_string env buffer pos = do
  fail_if (ltb (length buffer) (pos + 2)) invalid_param
  str_len ← lift (read_u16 buffer pos)
  fail_if (ltb (length buffer) (pos + 2 + str_len)) packet_malformed
  granted ← alloc env
  if granted
      then (do
        bytes ← lift (slice buffer (pos + 2) str_len)
        return (until_nul bytes, pos + 2 + str_len))
      else fail out_of_memory

unfoldable pub mqtt_encode_string : Text → ℕ → List ℕ → Result (List ℕ)
mqtt_encode_string str buf_len out =
    let str_len = length str % 2 ^ 16 in
    if ltb buf_len (length out + 2 + str_len)
    then err buffer_overflow
    else and_then (store buf_len (str_len / 256) out) (λ o.
      and_then (store buf_len (bit_and str_len 0xff) o) (store_all buf_len (take str_len str)))
