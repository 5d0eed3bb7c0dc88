-- ===== src/Message.antt =====
-- Messages: `message_t` of include/common/types.h and the utilities of src/pal/pal.c.
-- A pointer that may be NULL is an `Option`. A `char *` is its characters, a `uint8_t *` its bytes.
pub mod Laws
pub mod Copy
mod Tests
use paum_io_t.Common.{
  ℕ, ◌+◌, Bool, true, false, not, ◌&&◌, ◌||◌, List, Option, none, some, ltb, is_some, if◌then◌else◌,
  ◌==◌, ◌≡◌, length,
}
use paum_io_t.Codes.{Code, success, invalid_param, out_of_memory, general}
use paum_io_t.World.{
  Text, Env, World, M, ◌>>=◌, ◌>>◌, ok, err, fault, return, fail, fail_if, lift, get, put, slice,
  freed, free, alloc, strdup,
}

-- `protocol_type_t`
pub data Protocol : Type 0 where
  unknown mqtt coap http websocket custom : Protocol

unfoldable pub protocol_value : Protocol → ℕ
protocol_value unknown = 0
protocol_value mqtt = 1
protocol_value coap = 2
protocol_value http = 3
protocol_value websocket = 4
protocol_value custom = 5

unfoldable pub same_protocol : Protocol → Protocol → Bool
unfolding protocol_value
same_protocol p q = protocol_value p == protocol_value q

-- The anonymous struct of `message_t`. `qos` is the number of a `qos_level_t`: the MQTT decoder
-- casts two bits to the enumeration, so 3 occurs.
pub record Metadata : Type 0 where
  pub qos : ℕ
  pub protocol : Protocol
  pub content_type : Option Text
  pub retain : Bool
  pub ttl : ℕ

-- `message_t`
pub record Message : Type 0 where
  pub message_id : Option Text
  pub timestamp : Option Text
  pub source : Option Text
  pub destination : Option Text
  pub payload : Option (List ℕ)
  pub payload_len : ℕ
  pub metadata : Metadata
  pub open metadata use *

-- What `calloc` leaves: every pointer NULL, every number 0.
abbrev pub cleared : Message
cleared = record {
  message_id = none;
  timestamp = none;
  source = none;
  destination = none;
  payload = none;
  payload_len = 0;
  metadata = record { qos = 0; protocol = unknown; content_type = none; retain = false; ttl = 0 };
}

-- The bytes that `memcpy(_, p, n)` reads.
unfoldable pub load : Option (List ℕ) → ℕ → M (List ℕ)
unfolding slice
load none n = lift fault
load (some xs) n = lift (slice xs 0 n)

-- The result of a call whose error the caller only tests.
unfoldable pub attempt : M Text → M (Option Text)
attempt m w =
    let (r, w') = m w in
    elim r [ ok a ↦ (ok (some a), w') | err e ↦ (ok none, w') | fault ↦ (fault, w') ]

unfoldable pub message_free : Option Message → M (Unit {0})
unfolding ◌>>=◌
message_free none = return tt
message_free (some m) = do
  free m.message_id
  free m.timestamp
  free m.source
  free m.destination
  free m.payload
  free m.content_type
  free (some m)

module _ (env : Env) where
  -- The first argument says whether `buffer` is not NULL.
  unfoldable pub message_generate_id : Bool → ℕ → M Text
  unfolding ◌>>=◌
  message_generate_id buffer buf_len = do
    fail_if (not buffer || ltb buf_len 37) invalid_param
    w ← get
    put (record w { calls = w.calls + 1 })
    return (env.uuid w.calls)

  unfoldable pub message_generate_timestamp : Bool → ℕ → M Text
  unfolding ◌>>=◌
  message_generate_timestamp buffer buf_len = do
    fail_if (not buffer || ltb buf_len 21) invalid_param
    w ← get
    put (record w { calls = w.calls + 1 })
    elim (env.utc w.calls) [ none ↦ fail general | some now ↦ return now ]

  -- `if (generate(...) == PAUMIOT_SUCCESS) field = strdup(buffer);` on a field that is NULL.
  unfoldable pub strdup_result : Option Text → M (Option Text)
  unfolding strdup
  strdup_result none = return none
  strdup_result (some s) = strdup env s

  unfoldable pub message_create : M (Option Message)
  unfolding ◌>>=◌ alloc attempt strdup_result message_generate_id message_generate_timestamp
  message_create = do
    granted ← alloc env
    if granted
        then (do
          id_buffer ← attempt (message_generate_id true 64)
          message_id ← strdup_result id_buffer
          timestamp_buffer ← attempt (message_generate_timestamp true 32)
          timestamp ← strdup_result timestamp_buffer
          return (some (record cleared { message_id = message_id; timestamp = timestamp })))
        else return none

  -- `if (original->f) { free(copy->f); copy->f = strdup(original->f); }`
  unfoldable pub replace_string : Option Text → Option Text → M (Option Text)
  unfolding ◌>>=◌ strdup
  replace_string none old = return old
  replace_string (some s) old = free old >> strdup env s

  -- `if (original->f) copy->f = strdup(original->f);` on a field that is NULL.
  unfoldable pub copy_string : Option Text → M (Option Text)
  unfolding strdup_result
  copy_string = strdup_result

  -- `q = malloc(n); if (q) memcpy(q, p, n);`
  unfoldable pub duplicate : Option (List ℕ) → ℕ → M (Option (List ℕ))
  unfolding ◌>>=◌ alloc load
  duplicate p n = do
    granted ← alloc env
    if granted then (do bytes ← load p n; return (some bytes)) else return none

  -- The payload and its length in the copy.
  unfoldable pub copy_payload : Option (List ℕ) → ℕ → M (Option (List ℕ) × ℕ)
  unfolding ◌>>=◌ duplicate
  copy_payload p n =
      if is_some p && ltb 0 n
      then (do q ← duplicate p n; return (q, if is_some q then n else 0))
      else return (none, 0)

  -- The body of `message_copy` from its first comment on: the fields of `copy`.
  unfoldable pub fill_copy : Message → Message → M (Option Message)
  fill_copy original copy = do
    message_id ← replace_string original.message_id copy.message_id
    timestamp ← replace_string original.timestamp copy.timestamp
    source ← copy_string original.source
    destination ← copy_string original.destination
    content_type ← copy_string original.content_type
    (payload, payload_len) ← copy_payload original.payload original.payload_len
    return (
        some (record {
          message_id = message_id;
          timestamp = timestamp;
          source = source;
          destination = destination;
          payload = payload;
          payload_len = payload_len;
          metadata = record {
            qos = original.qos;
            protocol = original.protocol;
            content_type = content_type;
            retain = original.retain;
            ttl = original.ttl;
          };
        }))

  unfoldable pub message_copy : Option Message → M (Option Message)
  message_copy none = return none
  message_copy (some original) = do
    created ← message_create
    elim created [ none ↦ return none | some copy ↦ fill_copy original copy ]

  -- The code, and the message as it is left: an error may come after the old payload is gone.
  unfoldable pub set_payload : Message → Option (List ℕ) → ℕ → M (Code × Message)
  unfolding ◌>>=◌ duplicate
  set_payload m p n =
      let emptied = record m { payload = none; payload_len = 0 } in
      if not (is_some p) && ltb 0 n
      then return (invalid_param, m)
      else free m.payload
        >> (if ltb 0 n
            then (do
              q ← duplicate p n
              elim q [
                | none ↦ return (out_of_memory, emptied)
                | some bytes ↦ return (success, record m { payload = some bytes; payload_len = n })
              ])
            else return (success, emptied))

  unfoldable pub message_set_payload :
      Option Message → Option (List ℕ) → ℕ → M (Code × Option Message)
  unfolding ◌>>=◌ set_payload
  message_set_payload none p n = return (invalid_param, none)
  message_set_payload (some m) p n = do (code, m') ← set_payload m p n; return (code, some m')
