-- ===== src/Bridge/Options.antt =====
-- The command line of the bridge, described apart from the code.
use Prim.Native.String.{String}
use paum_io_t.Common.{◌≡◌, refl, List, [], ◌∷◌, some}
use paum_io_t.Common.Int.{ℤ}
use paum_io_t.Bridge.{Config, debug, parse_args}

-- A complete option.
pub data Choice : Type 0 where
  mqtt_port coap_port : String → Choice
  debugging : Choice

abbrev pub words : List Choice → List String
words [] = []
words (mqtt_port value ∷ cs) = "--mqtt-port" ∷ value ∷ words cs
words (coap_port value ∷ cs) = "--coap-port" ∷ value ∷ words cs
words (debugging ∷ cs) = "--debug" ∷ words cs

-- The configuration after the options, from left to right.
abbrev pub chosen : (String → ℤ) → List Choice → Config → Config
chosen atoi [] config = config
chosen atoi (mqtt_port value ∷ cs) config =
    chosen atoi cs (record config { mqtt_port = atoi value })
chosen atoi (coap_port value ∷ cs) config =
    chosen atoi cs (record config { coap_port = atoi value })
chosen atoi (debugging ∷ cs) config = chosen atoi cs (record config { level = debug })

parse_args-debug :
    (atoi : String → ℤ) (args : List String) (config : Config)
    → parse_args atoi ("--debug" ∷ args) config
      ≡ parse_args atoi args (record config { level = debug })
unfolding parse_args
parse_args-debug atoi [] config = refl
parse_args-debug atoi (arg ∷ args) config = refl

-- Complete options are read from left to right, so that the last one for a field counts, and the word
-- behind an option for a port is its value, even if it looks like an option.
pub parse_args-words :
    (atoi : String → ℤ) (cs : List Choice) (config : Config)
    → parse_args atoi (words cs) config ≡ some (chosen atoi cs config)
unfolding parse_args
parse_args-words atoi [] config = refl
parse_args-words atoi (mqtt_port value ∷ cs) config =
    parse_args-words atoi cs (record config { mqtt_port = atoi value })
parse_args-words atoi (coap_port value ∷ cs) config =
    parse_args-words atoi cs (record config { coap_port = atoi value })
parse_args-words atoi (debugging ∷ cs) config =
    rw (parse_args-debug atoi (words cs) config)
      (parse_args-words atoi cs (record config { level = debug }))
