-- ===== src/Coap/Handlers.antt =====
-- The rules for the calls whose errors the CoAP decoder handles.
use paum_io_t.Common.{◌≡◌}
use paum_io_t.Codes.{Code, invalid_param}
use paum_io_t.World.{World, CoapState, M, Result, ok, err, fault, add64}
use paum_io_t.World.Rules.{Ensures}
use paum_io_t.Message.{Message}
use paum_io_t.Coap.Parse.{CoapMessage}
use paum_io_t.Coap.Decode.{count_errors, give_up, or_give_up}

-- What `packets_decoded++` and `errors++` leave.
abbrev pub decoded_once : CoapState → CoapState
decoded_once c = record c { packets_decoded = add64 c.packets_decoded 1 }

abbrev pub failed_once : CoapState → CoapState
failed_once c = record c { errors = add64 c.errors 1 }

-- The only outcome is this error.
abbrev pub Invalid : Code → World → Type 0
Invalid e v = e ≡ invalid_param

module _ {ℓ} {A : Type ℓ} (P : A → World → Type 0) (Q Q' : Code → World → Type 0) where
  or_give_up-cases :
      (msg : Message) (p : CoapMessage) (r : Result A) (w : World)
      → Ensures P Q (r, w)
      → ((e : Code) (v : World) → Q e v → Ensures P Q' (give_up msg p e v))
      → Ensures P Q' (or_give_up msg p (λ _. (r, w)) w)
  unfolding or_give_up
  or_give_up-cases msg p (ok a) w h handled = h
  or_give_up-cases msg p (err e) w h handled = handled e w h
  or_give_up-cases msg p fault w h handled = h

  -- A step that gives up both messages if it fails.
  pub or_give_up-Ensures :
      (msg : Message) (p : CoapMessage) (s : M A) (w : World)
      → Ensures P Q (s w)
      → ((e : Code) (v : World) → Q e v → Ensures P Q' (give_up msg p e v))
      → Ensures P Q' (or_give_up msg p s w)
  unfolding or_give_up
  or_give_up-Ensures msg p s w h handled = or_give_up-cases msg p (s w).0 (s w).1 h handled

  count_errors-cases :
      (r : Result A) (w : World)
      → Ensures P Q (r, w)
      → ((e : Code) (v : World) → Q e v → Q' e (record v { coap = failed_once v.coap }))
      → Ensures P Q' (count_errors (λ _. (r, w)) w)
  unfolding count_errors
  count_errors-cases (ok a) w h counted = h
  count_errors-cases (err e) w h counted = counted e w h
  count_errors-cases fault w h counted = h

  -- A step whose error is counted.
  pub count_errors-Ensures :
      (s : M A) (w : World)
      → Ensures P Q (s w)
      → ((e : Code) (v : World) → Q e v → Q' e (record v { coap = failed_once v.coap }))
      → Ensures P Q' (count_errors s w)
  unfolding count_errors
  count_errors-Ensures s w h counted = count_errors-cases (s w).0 (s w).1 h counted
