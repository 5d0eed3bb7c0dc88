-- ===== src/Bridge/SendTest.antt =====
-- The test message of the bridge, and the memory that it takes.
use paum_io_t.Common.{ℕ, ◌+◌, ◌≡◌, refl, ◌∙◌, arith, List, [], ◌∷◌, Option, none, some}
use paum_io_t.World.{Text, codes, Env, World, MqttState, CoapState, ok, ◌>>=◌, strdup}
use paum_io_t.World.Rules.{At, Ensures, >>=-Ensures}
use paum_io_t.Message.{Message, mqtt, message_create, message_free, set_payload}
use paum_io_t.Message.Laws.{
  one, owned, blocks, IsFresh, message_create-At, set_payload-At, message_free-At,
}
use paum_io_t.Mqtt.Delivery.{Never}
use paum_io_t.Bridge.{Event, shows, message_handler, send_test}

-- At most one message was shown.
abbrev pub IsShown : List Event → Type 0
IsShown [] = Unit {0}
IsShown (shows s ∷ []) = Unit {0}
IsShown _ = ⊥

module _ (env : Env) where
  strdup-At :
      (s : Text) (w : World) (n : ℕ) {m : MqttState} {c : CoapState}
      → At n m c w
      → Ensures (λ r v. At (n + one r) m c v) Never (strdup env s w)
  unfolding strdup
  strdup-At s w n h = ground arith

  module _ (w : World) where
    abbrev pub Shows : List Event → World → Type 0
    Shows r v = IsShown r × (v.live ≡ w.live)

    -- What is done with a message that was created.
    filled-Shows :
        (msg : Message) (a b : Option Text) (v : World)
        → IsFresh (some msg)
        → At (w.live + blocks msg + one a + one b) w.mqtt w.coap v
        → Ensures Shows Never (
            (set_payload env
                  (record msg { source = a; destination = b })
                  (some (codes "Hello from PaumIoT!"))
                  19
                >>= λ (code, filled).
                    let test_msg = record filled {
                      metadata = record (filled.metadata) { protocol = mqtt; qos = 0 };
                    } in
                    message_free (some test_msg)
                    >>= (λ u. λ x. (ok (shows (message_handler test_msg) ∷ []), x)))
              v)
    filled-Shows msg a b v fresh h =
        >>=-Ensures (λ r u. At (w.live + blocks r.1) w.mqtt w.coap u) Shows Never _ _ v
          (set_payload-At env (record msg { source = a; destination = b })
            (codes "Hello from PaumIoT!") 19 w.live v Never (omega arith)
            (record { live = omega (arith, h.live, fresh); mqtt = h.mqtt; coap = h.coap }))
          λ r u k.
            >>=-Ensures (λ x y. At w.live w.mqtt w.coap y) Shows Never _ _ u
              (message_free-At
                (record (r.1) { metadata = record (r.1.metadata) { protocol = mqtt; qos = 0 } }) u
                w.live Never k)
              λ x y g. (tt, g.live)

    pub send_test-Shows : Ensures Shows Never (send_test env w)
    unfolding send_test
    send_test-Shows =
        >>=-Ensures (λ r v. At (w.live + owned r) w.mqtt w.coap v × IsFresh r) Shows Never
          (message_create env) _ w
          (message_create-At env w w.live Never (record { live = refl; mqtt = refl; coap = refl }))
          (elim [
            | none ↦ λ v k. (tt, k.0.live ∙ omega arith)
            | some msg ↦ λ v k.
                >>=-Ensures (λ a u. At (w.live + blocks msg + one a) w.mqtt w.coap u) Shows Never
                  (strdup env (codes "bridge_example")) _ v
                  (strdup-At (codes "bridge_example") v (w.live + blocks msg) k.0)
                  λ a u g.
                    >>=-Ensures (λ b y. At (w.live + blocks msg + one a + one b) w.mqtt w.coap y)
                      Shows Never (strdup env (codes "test/topic")) _ u
                      (strdup-At (codes "test/topic") u (w.live + blocks msg + one a) g)
                      λ b y f. filled-Shows msg a b y k.1 f
          ])
