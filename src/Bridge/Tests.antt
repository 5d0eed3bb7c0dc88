-- ===== src/Bridge/Tests.antt =====
-- The theorems on the bridge at concrete runs.
use Prim.Native.String.{String}
use paum_io_t.Common.{
  ℕ, Bool, ◌≡◌, refl, arith, true, false, List, [], ◌∷◌, some, none, ltb, lt→ltb,
}
use paum_io_t.Common.Int.{ℤ, pos}
use paum_io_t.Codes.{success, timeout}
use paum_io_t.World.{Env, World}
use paum_io_t.World.Rules.{Ensures}
use paum_io_t.Mqtt.Delivery.{Never}
use paum_io_t.Bridge.{initial_config, Middleware, parse_args, main}
use paum_io_t.Bridge.Options.{Choice, mqtt_port, debugging, words, chosen, parse_args-words}
use paum_io_t.Bridge.Lifecycle.{cleanups, contexts, main-cleans_up}

-- The first two requests for memory are granted, the message and its identifier, and no other.
abbrev short : Env
short = record { malloc = λ n. ltb n 2; uuid = λ n. 49 ∷ []; utc = λ n. none }

abbrev start : World
start = record {
  calls = 0;
  live = 7;
  mqtt = record {
    next_packet_id = 1;
    protocol_version = 5;
    session_present = false;
    packets_decoded = 0;
    packets_encoded = 0;
    errors = 0;
  };
  coap = record { next_message_id = 1; packets_decoded = 0; packets_encoded = 0; errors = 0 };
  mqtt_private = false;
  coap_private = false;
}

abbrev willing : Middleware
willing = record { init = λ c. true; start = success; stop = timeout }

abbrev port_of : String → ℤ
port_of s = pos 9

-- The signal comes in the 61st second.
abbrev a_minute : ℕ → Bool
a_minute n = ltb n 61

abbrev choices : List Choice
choices = mqtt_port "--help" ∷ debugging ∷ []

parse_args-words_example :
    parse_args port_of (words choices) initial_config ≡ some (chosen port_of choices initial_config)
parse_args-words_example = parse_args-words port_of choices initial_config

main-cleans_up_example :
    Ensures
      (λ r v.
        (cleanups r.1 ≡ contexts willing (parse_args port_of (words choices) initial_config))
        × (v.live ≡ 7))
      Never
      (main short willing port_of a_minute 62 (words choices) start)
main-cleans_up_example =
    main-cleans_up short willing port_of a_minute 62 61 (words choices) start (λ i h. lt→ltb i 61 h)
      refl (omega arith) (omega arith)
