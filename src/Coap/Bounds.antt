-- ===== src/Coap/Bounds.antt =====
-- The CoAP parser on any bytes: its accesses to the packet and its loop.
use paum_io_t.Common.{ℕ, ◌≤◌, refl, List, length}
use paum_io_t.World.{Env, World, Result}
use paum_io_t.World.Rules.{Ensures, Ensures-weaken}
use paum_io_t.Coap.Parse.{coap_decode_message}
use paum_io_t.Coap.Blocks.{Over}
use paum_io_t.Coap.Parsing.{Parsed, coap_decode_message-At}

-- A call ends with a result that has the property or with an error code: it makes no access outside a
-- buffer, and its fuel is enough.
abbrev pub Safe {ℓ} : {A : Type ℓ} → (A → Type 0) → Result A × World → Type 0
Safe P = Ensures (λ a w. P a) (λ e w. Unit {0})

-- Whatever the bytes are, and whichever requests for memory fail, parsing a packet ends, and it reads
-- only inside the packet: the result is an error code, or a message with a token of 8 bytes at most.
pub coap_decode_message-Safe :
    (env : Env) (packet : List ℕ) (w : World)
    → Safe (λ m. length m.token ≤ 8) (coap_decode_message env packet w)
coap_decode_message-Safe env packet w =
    Ensures-weaken (Parsed w.live w.mqtt w.coap) _ (λ e v. Over w.live w.mqtt w.coap v) _ _
      (coap_decode_message-At w.live w.mqtt w.coap env packet w
        (record { live = refl; mqtt = refl; coap = refl }))
      (λ p v h. h.1.1) (λ e v h. tt)
