-- ===== src/Pal/Tests.antt =====
-- The theorems on the adapter table with the two adapters of the program.
use paum_io_t.Common.{◌≡◌, arith, true, false, List, [], ◌∷◌, none}
use paum_io_t.World.{Env, World}
use paum_io_t.Message.{mqtt}
use paum_io_t.Pal.{Adapter, no_stats, register, unregister}
use paum_io_t.Pal.Builtin.{mqtt_adapter, coap_adapter}
use paum_io_t.Pal.Registry.{table, register_in, register-eq-register_in}
use paum_io_t.Pal.Removal.{unregister_in, unregister-eq-unregister_in}
use paum_io_t.Pal.Directory.{
  Call, registers, unregisters, decodes, Directory, serve_all, perform_all, stored, kept,
}
use paum_io_t.Pal.Session.{serve_all-perform_all}
use paum_io_t.Pal.Reach.{IsTable, started, registered, Reached-IsTable}

abbrev plenty : Env
plenty = record { malloc = λ n. true; uuid = λ n. 49 ∷ []; utc = λ n. none }

abbrev start : World
start = record {
  calls = 0;
  live = 0;
  mqtt = record {
    next_packet_id = 1;
    protocol_version = 5;
    session_present = false;
    packets_decoded = 0;
    packets_encoded = 0;
    errors = 0;
  };
  coap = record { next_message_id = 1; packets_decoded = 0; packets_encoded = 0; errors = 0 };
  mqtt_private = false;
  coap_private = false;
}

abbrev both : List Adapter
both = mqtt_adapter plenty ∷ coap_adapter plenty ∷ []

register-eq-register_in_example :
    register (table (mqtt_adapter plenty ∷ []) no_stats) (coap_adapter plenty) start
    ≡ register_in (mqtt_adapter plenty ∷ []) no_stats (coap_adapter plenty) start
register-eq-register_in_example =
    register-eq-register_in (mqtt_adapter plenty ∷ []) no_stats (coap_adapter plenty) start

unregister-eq-unregister_in_example :
    unregister (table both no_stats) mqtt start ≡ unregister_in both no_stats mqtt start
unregister-eq-unregister_in_example =
    unregister-eq-unregister_in both no_stats mqtt start (omega arith)

Reached-IsTable_example : IsTable ((register (table [] no_stats) (mqtt_adapter plenty) start).1)
Reached-IsTable_example =
    Reached-IsTable ((register (table [] no_stats) (mqtt_adapter plenty) start).1)
      (registered (table [] no_stats) (mqtt_adapter plenty) start started)

abbrev script : List Call
script =
    registers (mqtt_adapter plenty)
    ∷ registers (coap_adapter plenty)
    ∷ decodes mqtt (48 ∷ 2 ∷ 0 ∷ 0 ∷ [])
    ∷ unregisters mqtt
    ∷ decodes mqtt (48 ∷ 2 ∷ 0 ∷ 0 ∷ [])
    ∷ []

abbrev empty : Directory
empty = record { adapters = []; log = [] }

serve_all-perform_all_example :
    serve_all script (stored empty) start ≡ kept (perform_all script empty start)
serve_all-perform_all_example = serve_all-perform_all script empty start (omega arith)
