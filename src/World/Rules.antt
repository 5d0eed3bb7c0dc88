-- ===== src/World/Rules.antt =====
-- Postconditions of calls: a rule for each way to put calls together.

use paum_io_t.Codes.{Code}
use paum_io_t.Common.{ap, subst, sym, ℕ, ◌≡◌, refl, Bool, true, false}
use paum_io_t.World.{World, MqttState, CoapState, M, Result, ok, err, fault, ◌>>=◌, fail_if, lift}

-- The call has no fault, a value that it returns satisfies `P`, and an error `Q`.
abbrev pub Ensures {ℓ} :
    {A : Type ℓ} → (A → World → Type 0) → (Code → World → Type 0) → Result A × World → Type 0
Ensures P Q (ok a, w) = P a w
Ensures P Q (err e, w) = Q e w
Ensures P Q (fault, w) = ⊥

bind_cases {ℓ κ} :
    {A : Type ℓ} {B : Type κ} (P : A → World → Type 0) (P' : B → World → Type 0)
    (Q : Code → World → Type 0) (r : Result A) (w : World) (k : A → M B)
    → Ensures P Q (r, w)
    → ((a : A) (w' : World) → P a w' → Ensures P' Q (k a w'))
    → Ensures P' Q (◌>>=◌ (λ _. (r, w)) k w)
unfolding ◌>>=◌
bind_cases P P' Q (ok a) w k h next = next a w h
bind_cases P P' Q (err e) w k h next = h
bind_cases P P' Q fault w k h next = h

pub >>=-Ensures {ℓ κ} :
    {A : Type ℓ} {B : Type κ} (P : A → World → Type 0) (P' : B → World → Type 0)
    (Q : Code → World → Type 0) (m : M A) (k : A → M B) (w : World)
    → Ensures P Q (m w)
    → ((a : A) (w' : World) → P a w' → Ensures P' Q (k a w'))
    → Ensures P' Q ((m >>= k) w)
unfolding ◌>>=◌
>>=-Ensures P P' Q m k w h next = bind_cases P P' Q (m w).0 (m w).1 k h next

-- `n` blocks are allocated, and the adapters' states are given.
pub record At (n : ℕ) (m : MqttState) (c : CoapState) (w : World) : Type 0 where
  pub live : w.live ≡ n
  pub mqtt : w.mqtt ≡ m
  pub coap : w.coap ≡ c

-- A part without a world has no fault, and a value that it returns satisfies `P`.
abbrev pub Yields {ℓ} : {A : Type ℓ} → (A → Type 0) → Result A → Type 0
Yields P (ok a) = P a
Yields P (err e) = Unit
Yields P fault = ⊥

pub lift-Ensures {ℓ} :
    {A : Type ℓ} (P : A → Type 0) (r : Result A) {n : ℕ} {m : MqttState} {c : CoapState} {w : World}
    → At n m c w
    → Yields P r
    → Ensures (λ a w'. At n m c w' × P a) (λ e w'. At n m c w') (lift r w)
lift-Ensures P (ok a) h y = (h, y)
lift-Ensures P (err e) h y = h
lift-Ensures P fault h y = y

pub fail_if-Ensures :
    (b : Bool) (e : Code) {n : ℕ} {m : MqttState} {c : CoapState} {w : World}
    → At n m c w
    → Ensures (λ a w'. At n m c w' × (b ≡ false)) (λ e w'. At n m c w') (fail_if b e w)
fail_if-Ensures true e h = h
fail_if-Ensures false e h = (h, refl)

-- A call whose first part is known to succeed goes on with its value.
pub >>=-ok {ℓ κ} :
    {A : Type ℓ} {B : Type κ} (m : M A) (k : A → M B) (w : World) {a : A} {w' : World}
    → m w ≡ (ok a, w')
    → (m >>= k) w ≡ k a w'
unfolding ◌>>=◌
>>=-ok m k w e = ap (λ p. ◌>>=◌ (λ _. p) k w) e

pub lift-ok {ℓ} : {A : Type ℓ} (w : World) {r : Result A} {a : A} → r ≡ ok a → lift r w ≡ (ok a, w)
lift-ok w e = ap (λ x. (x, w)) e

pub >>=-err {ℓ κ} :
    {A : Type ℓ} {B : Type κ} (m : M A) (k : A → M B) (w : World) {e : Code} {w' : World}
    → m w ≡ (err e, w')
    → (m >>= k) w ≡ (err e, w')
unfolding ◌>>=◌
>>=-err m k w e = ap (λ p. ◌>>=◌ (λ _. p) k w) e

-- The rule for a first part that is known to succeed.
pub ok-Ensures {ℓ κ} :
    {A : Type ℓ} {B : Type κ} (P : B → World → Type 0) (Q : Code → World → Type 0) (m : M A)
    (k : A → M B) (w : World) {a : A} {w' : World}
    → m w ≡ (ok a, w')
    → Ensures P Q (k a w')
    → Ensures P Q ((m >>= k) w)
ok-Ensures P Q m k w e h = subst (λ r. Ensures P Q r) (sym (>>=-ok m k w e)) h

-- A postcondition may be weakened.
pub Ensures-weaken {ℓ} :
    {A : Type ℓ} (P P' : A → World → Type 0) (Q Q' : Code → World → Type 0) (r : Result A × World)
    → Ensures P Q r
    → ((a : A) (w : World) → P a w → P' a w)
    → ((e : Code) (w : World) → Q e w → Q' e w)
    → Ensures P' Q' r
Ensures-weaken P P' Q Q' (ok a, w) h f g = f a w h
Ensures-weaken P P' Q Q' (err e, w) h f g = g e w h
Ensures-weaken P P' Q Q' (fault, w) h f g = h
