-- ===== src/Bridge.antt =====
-- The example program examples/mqtt_to_coap_bridge.c. The calls paumiot_init, paumiot_start and
-- paumiot_stop have no code in the repository: their results are parameters, like `atoi` and the
-- values of `running` that the event loop reads. What printf prints is kept for messages, the status
-- and the warning.

pub mod Loop
pub mod SendTest
pub mod Options
pub mod Lifecycle
mod Tests
use paum_io_t.Common.{leb, ◌^◌}
use Prim.Native.String.{String}
use text.Mathlib.Text.{◌==◌ as str_eq}
use paum_io_t.Common.{
  ℕ, zero, suc, ◌+◌, ◌%◌, Bool, List, [], ◌∷◌, ◌++◌, Option, none, some, ◌==◌, if◌then◌else◌, true,
  not,
}
use paum_io_t.Common.Int.{ℤ, pos}
use paum_io_t.Codes.{Code, is_success}
use paum_io_t.World.{codes, Text, Env, M, Result, ok, fault, ◌>>=◌, ◌>>◌, return, lift, strdup}
use paum_io_t.Message.{Message, Protocol, mqtt, coap, message_create, message_free, set_payload}

pub data LogLevel : Type 0 where
  debug info : LogLevel

-- The fields of `paumiot_config_t` that the program sets.
pub record Config : Type 0 where
  pub bind_address : String
  pub mqtt_port : ℤ
  pub coap_port : ℤ
  pub max_connections : ℕ
  pub mqtt_enabled : Bool
  pub coap_enabled : Bool
  pub level : LogLevel
  pub console_output : Bool
  pub bridge_enabled : Bool
  pub mqtt_to_coap : Bool
  pub coap_to_mqtt : Bool

abbrev pub initial_config : Config
initial_config = record {
  bind_address = "0.0.0.0";
  mqtt_port = pos 1883;
  coap_port = pos 5683;
  max_connections = 100;
  mqtt_enabled = true;
  coap_enabled = true;
  level = info;
  console_output = true;
  bridge_enabled = true;
  mqtt_to_coap = true;
  coap_to_mqtt = true;
}

-- What the middleware answers: whether `paumiot_init` returns a context, and the results of
-- `paumiot_start` and `paumiot_stop`.
pub record Middleware : Type 0 where
  pub init : Config → Bool
  pub start : Code
  pub stop : Code

-- What `message_handler` prints of a message; the first two are "unknown" if they are NULL.
pub record Shown : Type 0 where
  pub source : Option Text
  pub destination : Option Text
  pub protocol : String
  pub qos : ℕ
  pub payload_len : ℕ
  pub payload : Option Text

-- What the program does, in order.
pub data Event : Type 0 where
  asks_init : Config → Event
  starts : Event
  shows : Shown → Event
  sleeps : Event
  -- The status, with the seconds that the program has run.
  reports : ℕ → Event
  stops : Event
  warns : Code → Event
  cleans_up : Event

abbrev protocol_name : Protocol → String
protocol_name mqtt = "MQTT"
protocol_name coap = "CoAP"
protocol_name _ = "Unknown"

unfoldable pub message_handler : Message → Shown
message_handler msg = record {
  source = msg.source;
  destination = msg.destination;
  protocol = protocol_name msg.protocol;
  qos = msg.qos;
  payload_len = msg.payload_len;
  payload = msg.payload;
}

-- The loop over `argv` behind the program's name; `none` means that `--help` was among them. An
-- option that takes a value is passed over if it is the last word.
unfoldable pub parse_args : (String → ℤ) → List String → Config → Option Config
parse_args atoi [] config = some config
parse_args atoi (arg ∷ []) config =
    if str_eq arg "--debug"
    then some (record config { level = debug })
    else if str_eq arg "--help"
    then none
    else some config
parse_args atoi (arg ∷ (value ∷ rest)) config =
    let behind_value = λ (c : Config). parse_args atoi rest c in
    let behind = λ (c : Config). parse_args atoi (value ∷ rest) c in
    if str_eq arg "--mqtt-port"
    then behind_value (record config { mqtt_port = atoi value })
    else if str_eq arg "--coap-port"
    then behind_value (record config { coap_port = atoi value })
    else if str_eq arg "--debug"
    then behind (record config { level = debug })
    else if str_eq arg "--help"
    then none
    else behind config

-- "Example: Send a test message"
unfoldable pub send_test : Env → M (List Event)
send_test env = do
  created ← message_create env
  elim created [
    | none ↦ return []
    | some msg ↦ do
      source ← strdup env (codes "bridge_example")
      destination ← strdup env (codes "test/topic")
      (code, filled) ←
          set_payload env (record msg { source = source; destination = destination })
            (some (codes "Hello from PaumIoT!")) 19
      let test_msg = record filled {
        metadata = record (filled.metadata) { protocol = mqtt; qos = 0 };
      }
      message_free (some test_msg)
      return (shows (message_handler test_msg) ∷ [])
  ]

-- `while (running)`: `running n` is what the n-th test reads, and `counter` counts the rounds.
-- It is an `int`: what happens when it overflows is undefined, which is a fault here.
unfoldable pub event_loop : ℕ → (ℕ → Bool) → ℕ → Result (List Event)
event_loop zero running counter = fault
event_loop (suc fuel) running counter =
    let rest = event_loop fuel running (counter + 1) in
    if running counter
    then (if leb (2 ^ 31) (counter + 1) then fault else elim rest [
      | ok events ↦ ok (
          sleeps ∷ ((if (counter + 1) % 30 == 0 then reports (counter + 1) ∷ [] else []) ++ events))
      | r ↦ r
    ])
    else ok []

-- From `paumiot_start` on, with a context.
unfoldable pub run_bridge : Env → Middleware → (ℕ → Bool) → ℕ → M (ℕ × List Event)
run_bridge env middleware running fuel =
    if not (is_success middleware.start) then return (1, starts ∷ cleans_up ∷ []) else (do
      shown ← send_test env
      ticks ← lift (event_loop fuel running 0)
      let stopped =
          stops ∷ (if not (is_success middleware.stop) then warns middleware.stop ∷ [] else [])
      return (0, starts ∷ (shown ++ (ticks ++ (stopped ++ (cleans_up ∷ []))))))

-- From "Initialize the middleware" on; after `--help` the program ends before that.
unfoldable pub with_config : Env → Middleware → (ℕ → Bool) → ℕ → Option Config → M (ℕ × List Event)
with_config env middleware running fuel none = return (0, [])
with_config env middleware running fuel (some config) =
    if middleware.init config
    then (do
      (exit_code, events) ← run_bridge env middleware running fuel
      return (exit_code, asks_init config ∷ events))
    else return (1, asks_init config ∷ [])

-- The exit code, and what was done.
unfoldable pub main :
    Env → Middleware → (String → ℤ) → (ℕ → Bool) → ℕ → List String → M (ℕ × List Event)
main env middleware atoi running fuel args =
    with_config env middleware running fuel (parse_args atoi args initial_config)
