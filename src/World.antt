-- ===== src/World.antt =====
-- What the adapters share: the global states of mqtt_adapter.c and coap_adapter.c, the result of a
-- call, and what the code takes from the C library, libuuid and the clock.
pub mod Rules
pub mod Buffer
use Prim.Native.Char.{code}
use Prim.Native.String.{String}
use paum_io_t.Common.{
  ℕ, ◌+◌, ◌-◌, ◌≡◌, ◌^◌, ◌%◌, Bool, true, false, List, Option, none, some, if◌then◌else◌, leb,
  length, ltb, [], ◌∷◌, ◌++◌, ◌==◌, get_elem?, take, drop,
}
use paum_io_t.Codes.{Code}

-- A C string without its final 0, or a run of bytes.
abbrev pub Text : Type 0
Text = List ℕ

-- The characters of a string literal.
abbrev pub codes : String → Text
codes String.[] = []
codes (String.◌∷◌ c s) = code c ∷ codes s

-- `err` is an error code that is returned. `fault` is no result of the code: it stands for an
-- access outside a buffer, for what C leaves undefined, as an `int` that overflows, and for a loop
-- that is not done after the rounds it is given.
pub data Result {ℓ} (A : Type ℓ) : Type ℓ where
  ok : A → Result A
  err : Code → Result A
  fault : Result A

-- `mqtt_adapter_state_t`
pub record MqttState : Type 0 where
  pub next_packet_id : ℕ
  pub protocol_version : ℕ
  pub session_present : Bool
  pub packets_decoded : ℕ
  pub packets_encoded : ℕ
  pub errors : ℕ

-- `coap_adapter_state_t`
pub record CoapState : Type 0 where
  pub next_message_id : ℕ
  pub packets_decoded : ℕ
  pub packets_encoded : ℕ
  pub errors : ℕ

-- `calls` counts the requests to the environment so far, and `live` the blocks that are allocated
-- and not yet freed. The last two fields say whether `private_data` of an adapter is set.
pub record World : Type 0 where
  pub calls : ℕ
  pub live : ℕ
  pub mqtt : MqttState
  pub coap : CoapState
  pub mqtt_private : Bool
  pub coap_private : Bool

-- `device_capabilities_t`
pub record Capabilities : Type 0 where
  pub supports_qos0 : Bool
  pub supports_qos1 : Bool
  pub supports_qos2 : Bool
  pub supports_retain : Bool
  pub supports_wildcards : Bool
  pub max_packet_size : ℕ
  pub max_topic_alias : ℕ

-- The environment, as answers to the n-th request: whether `malloc`, `calloc`, `realloc` or
-- `strdup` returns a block, the text of a new UUID (libuuid), and the UTC time as text
-- (`time`, `gmtime`, `strftime`), where `gmtime` may return NULL.
pub record Env : Type 0 where
  pub malloc : ℕ → Bool
  pub uuid : ℕ → Text
  pub utc : ℕ → Option Text

-- Every request for memory is granted.
abbrev pub Grants : Env → Type 0
Grants env = (n : ℕ) → env.malloc n ≡ true

-- A call that may fail, over the world. What it changed before it failed stays changed.
abbrev pub M {ℓ} : Type ℓ → Type ℓ
M A = World → Result A × World

infixl 5 ◌>>=◌ ◌>>◌
unfoldable pub ◌>>=◌ {ℓ κ} : {A : Type ℓ} {B : Type κ} → M A → (A → M B) → M B
◌>>=◌ m f w =
    let (r, w') = m w in elim r [ ok a ↦ f a w' | err e ↦ (err e, w') | fault ↦ (fault, w') ]

abbrev pub ◌>>◌ {ℓ} : {B : Type ℓ} → M (Unit {0}) → M B → M B
m >> k = m >>= λ _. k

abbrev pub return {ℓ} : {A : Type ℓ} → A → M A
return a w = (ok a, w)

abbrev pub fail {ℓ} : {A : Type ℓ} → Code → M A
fail e w = (err e, w)

-- `if (b) return e;`
abbrev pub fail_if : Bool → Code → M (Unit {0})
fail_if true e w = (err e, w)
fail_if false e w = (ok tt, w)

-- A part that neither reads nor changes the world.
abbrev pub lift {ℓ} : {A : Type ℓ} → Result A → M A
lift r w = (r, w)

abbrev pub get : M World
get w = (ok w, w)

abbrev pub put : World → M (Unit {0})
put w' w = (ok tt, w')

-- `buffer[i]`
unfoldable pub read : List ℕ → ℕ → Result ℕ
read xs i = elim (get_elem? xs i) [ none ↦ fault | some b ↦ ok b ]

-- `memcpy(_, buffer + i, n)`
unfoldable pub slice : List ℕ → ℕ → ℕ → Result (List ℕ)
slice xs i n = if leb (i + n) (length xs) then ok (take n (drop i xs)) else fault

-- The calls of a helper that only reads or fills a buffer, one after the other.
abbrev pub and_then {ℓ κ} : {A : Type ℓ} {B : Type κ} → Result A → (A → Result B) → Result B
and_then (ok a) f = f a
and_then (err e) f = err e
and_then fault f = fault

-- `if (test) m else k` where the test reads a buffer.
abbrev pub if_read {ℓ} : {A : Type ℓ} → Result Bool → M A → M A → M A
if_read (ok true) m k = m
if_read (ok false) m k = k
if_read (err e) m k = fail e
if_read fault m k = lift fault

-- A packet buffer of `cap` bytes that is filled from the front is `cap` and the bytes that stand in
-- it so far; `pos` in the source is their number. `buffer[pos++] = b`, where `b` becomes a `uint8_t`:
unfoldable pub store : ℕ → ℕ → List ℕ → Result (List ℕ)
store cap b out = if ltb (length out) cap then ok (out ++ ((b % 256) ∷ [])) else fault

-- `memcpy(buffer + pos, bytes, n); pos += n;`
unfoldable pub store_all : ℕ → List ℕ → List ℕ → Result (List ℕ)
store_all cap bytes out = if leb (length out + length bytes) cap then ok (out ++ bytes) else fault

-- What a reader of a C string sees of the bytes of its block: those before the first 0.
unfoldable pub until_nul : List ℕ → Text
until_nul [] = []
until_nul (b ∷ bs) = if b == 0 then [] else b ∷ until_nul bs

-- A counter of type `uint64_t` or `size_t`.
abbrev pub add64 : ℕ → ℕ → ℕ
add64 a b = (a + b) % 2 ^ 64

-- `free` of a pointer that is not NULL; `free(NULL)` does nothing.
abbrev pub freed {ℓ} : {A : Type ℓ} → Option A → World → World
freed none w = w
freed (some a) w = record w { live = w.live - 1 }

abbrev pub free {ℓ} : {A : Type ℓ} → Option A → M (Unit {0})
free p w = (ok tt, freed p w)

module _ (env : Env) where
  -- `malloc` and its kin: whether a block was returned.
  unfoldable pub alloc : M Bool
  alloc w =
      let granted = env.malloc w.calls in
      (ok granted, record w { calls = w.calls + 1; live = if granted then w.live + 1 else w.live })

  -- `strdup`
  unfoldable pub strdup : Text → M (Option Text)
  unfolding alloc ◌>>=◌
  strdup s = do granted ← alloc; return (if granted then some s else none)
