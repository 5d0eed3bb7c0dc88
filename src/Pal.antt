-- ===== src/Pal.antt =====
-- The protocol adaptation layer: the adapter table of src/pal/pal.c. An adapter is a record of
-- functions, and a function pointer that may be NULL an `Option`.
pub mod Traffic
pub mod Builtin
pub mod Table
pub mod Registry
pub mod Removal
pub mod Distinct
pub mod Dispatch
pub mod Directory
pub mod Capacity
pub mod Session
pub mod Reach
pub mod Relay
pub mod Cleanup
mod Tests
use Prim.Native.String.{String}
use paum_io_t.Common.{
  ℕ, zero, suc, ◌+◌, ◌-◌, Bool, true, false, not, List, [], ◌∷◌, Option, none, some, length, ltb,
  leb, get_elem?, get_or, set, replicate, if◌then◌else◌,
}
use paum_io_t.Codes.{
  invalid_param, not_initialized, already_initialized, not_supported, out_of_memory,
  protocol_unknown,
}
use paum_io_t.World.{
  World, Env, M, Result, ok, err, fault, ◌>>=◌, ◌>>◌, return, free, alloc, add64, Capabilities,
}
use paum_io_t.Message.{Message, Protocol, same_protocol}

-- `struct protocol_adapter`. The adapter that is passed to its own functions, and the pointers to
-- local variables, are never NULL here; `handle_control` is given the command.
pub record Adapter : Type 0 where
  pub protocol_type : Protocol
  pub decode : Option (List ℕ → M Message)
  pub encode : Option (Message → ℕ → M (List ℕ))
  pub get_capabilities : Option (M Capabilities)
  pub handle_control : Option (Option String → M (Unit {0}))
  pub init : Option (M (Unit {0}))
  pub cleanup : Option (M (Unit {0}))

-- The counters of `system_stats_t` that the code changes.
pub record Stats : Type 0 where
  pub messages_received : ℕ
  pub messages_sent : ℕ
  pub bytes_received : ℕ
  pub bytes_sent : ℕ
  pub errors : ℕ

-- `struct pal_context`. `adapters` is the whole array, with NULL where none is registered.
pub record Context : Type 0 where
  pub adapters : List (Option Adapter)
  pub num_adapters : ℕ
  pub max_adapters : ℕ
  pub initialized : Bool
  pub stats : Stats

-- What a call returns and leaves: its result, the context and the world.
abbrev pub Outcome : Type 0 → Type 0
Outcome A = Result A × Context × World

abbrev pub pal_max_adapters : ℕ
pal_max_adapters = 16

abbrev pub no_stats : Stats
no_stats = record {
  messages_received = 0;
  messages_sent = 0;
  bytes_received = 0;
  bytes_sent = 0;
  errors = 0;
}

-- The configuration is not read.
unfoldable pub pal_init : Env → M (Option Context)
unfolding ◌>>=◌ alloc
pal_init env = do
  granted ← alloc env
  if granted
      then (do
        array ← alloc env
        if array
            then return (
                some (record {
                  adapters = replicate pal_max_adapters none;
                  num_adapters = 0;
                  max_adapters = pal_max_adapters;
                  initialized = true;
                  stats = no_stats;
                }))
            else (free {0} (some tt) >> return none))
      else return none

-- The index of the adapter for a protocol among the `rounds` entries from `i` on. An entry that is
-- NULL, or outside the array, is read through.
unfoldable pub find_from : List (Option Adapter) → Protocol → ℕ → ℕ → Result (Option ℕ)
find_from adapters p zero i = ok none
find_from adapters p (suc rounds) i =
    let rest = find_from adapters p rounds (i + 1) in
    elim (get_elem? adapters i) [
      | none ↦ fault
      | some none ↦ fault
      | some (some a) ↦ if same_protocol a.protocol_type p then ok (some i) else rest
    ]

abbrev pub find_index : Context → Protocol → Result (Option ℕ)
find_index ctx p = find_from ctx.adapters p ctx.num_adapters 0

-- `pal_find_adapter` on a context that is not NULL.
unfoldable pub find_adapter : Context → Protocol → Result (Option Adapter)
unfolding find_from
find_adapter ctx p = if not ctx.initialized then ok none else elim (find_index ctx p) [
  | ok none ↦ ok none
  | ok (some i) ↦ ok (get_or ctx.adapters i none)
  | err e ↦ err e
  | fault ↦ fault
]

-- A function pointer that is called if it is not NULL.
unfoldable pub call : Option (M (Unit {0})) → M (Unit {0})
call none w = (ok tt, w)
call (some f) w = f w

-- "Register adapter"
unfoldable pub add_adapter : Context → Adapter → Context
add_adapter ctx adapter = record ctx {
  adapters = set ctx.adapters ctx.num_adapters (some adapter);
  num_adapters = ctx.num_adapters + 1;
}

unfoldable pub register : Context → Adapter → World → Outcome (Unit {0})
unfolding find_from call add_adapter
register ctx adapter w =
    if not ctx.initialized
    then (err not_initialized, ctx, w)
    else if leb ctx.max_adapters ctx.num_adapters
    then (err out_of_memory, ctx, w)
    else elim (find_index ctx adapter.protocol_type) [
      | ok (some i) ↦ (err already_initialized, ctx, w)
      | ok none ↦
          let (r, w') = call adapter.init w in
          elim r [
            | ok _ ↦ (ok tt, add_adapter ctx adapter, w')
            | err e ↦ (err e, ctx, w')
            | fault ↦ (fault, ctx, w')
          ]
      | err e ↦ (err e, ctx, w)
      | fault ↦ (fault, ctx, w)
    ]

-- `adapters[j] = adapters[j + 1]` for `rounds` values of `j`.
unfoldable pub shift_down : List (Option Adapter) → ℕ → ℕ → List (Option Adapter)
shift_down adapters zero j = adapters
shift_down adapters (suc rounds) j =
    shift_down (set adapters j (get_or adapters (j + 1) none)) rounds (j + 1)

-- The entries behind `i` move down, and the last one becomes NULL.
unfoldable pub remove_adapter : Context → ℕ → Context
unfolding shift_down
remove_adapter ctx i = record ctx {
  adapters = set (shift_down ctx.adapters (ctx.num_adapters - 1 - i) i) (ctx.num_adapters - 1) none;
  num_adapters = ctx.num_adapters - 1;
}

unfoldable pub cleanup_of : Option Adapter → M (Unit {0})
unfolding call
cleanup_of none w = (ok tt, w)
cleanup_of (some a) w = call a.cleanup w

unfoldable pub unregister : Context → Protocol → World → Outcome (Unit {0})
unfolding find_from cleanup_of remove_adapter
unregister ctx p w =
    if not ctx.initialized then (err not_initialized, ctx, w) else elim (find_index ctx p) [
      | ok none ↦ (err protocol_unknown, ctx, w)
      | ok (some i) ↦
          let (r, w') = cleanup_of (get_or ctx.adapters i none) w in
          elim r [
            | ok _ ↦ (ok tt, remove_adapter ctx i, w')
            | err e ↦ (ok tt, remove_adapter ctx i, w')
            | fault ↦ (fault, ctx, w')
          ]
      | err e ↦ (err e, ctx, w)
      | fault ↦ (fault, ctx, w)
    ]
