-- ===== src/Pal/Capacity.antt =====
-- What calls keep of the adapters of a directory.
use paum_io_t.Common.{
  ◌≤◌, ◌<◌, ◌≡◌, refl, arith, List, [], ◌∷◌, ◌++◌, Option, none, some, length, leb, Bool-cases, inl,
  inr,
}
use paum_io_t.Codes.{already_initialized, protocol_unknown, not_supported}
use paum_io_t.World.{World, Result, ok, err, fault, M}
use paum_io_t.Message.{Protocol}
use paum_io_t.Pal.{Adapter, pal_max_adapters, call}
use paum_io_t.Pal.Table.{lookup, remove, length-snoc}
use paum_io_t.Pal.Distinct.{IsDistinct, IsDistinct-append, remove-IsDistinct, length-remove}
use paum_io_t.Pal.Directory.{
  Call, registers, unregisters, decodes, encodes, Answer, finished, message, packet, Event,
  Directory, joined, left, perform, dispatched,
}

-- What holds of the adapters before a call, and of what is left when one is added or removed, holds
-- after the call.
module _ (P : List Adapter → Type 0) (d : Directory) (w : World) (h : P d.adapters)
    (added : (a : Adapter)
      → length d.adapters < pal_max_adapters
      → lookup a.protocol_type d.adapters ≡ none
      → P (d.adapters ++ (a ∷ [])))
    (removed : (p : Protocol) → P (remove p d.adapters)) where
  abbrev Holds : Answer × Directory × World → Type 0
  Holds r = P (r.1.adapters)

  dispatched-keeps {ℓ} :
      {A : Type 0} {F : Type ℓ} (mark : Result A → Answer) (event : Result A → Event)
      (o : Option Adapter) (function : Adapter → Option F) (run : F → M A)
      → Holds (dispatched o function run mark event d w)
  dispatched-keeps mark event none function run = h
  dispatched-keeps {A = A} {F = F} mark event (some a) function run = by_pointer (function a)
    where
      by_pointer :
          (f : Option F)
          → Holds (elim f as (λ _. Answer × Directory × World) [
            | none ↦ (mark (err not_supported), d, w)
            | some g ↦ (mark (run g w).0, record d { log = event (run g w).0 ∷ d.log }, (run g w).1)
          ])
      by_pointer none = h
      by_pointer (some g) = h

  pub perform-keeps : (c : Call) → Holds (perform c d w)
  unfolding perform joined left
  perform-keeps (registers a) = elim (Bool-cases (leb pal_max_adapters (length d.adapters))) [
    | inl full ↦ rw full h
    | inr room ↦ rw room (by_lookup (lookup a.protocol_type d.adapters) refl (ground arith))
  ]
    where
      by_result : (r : Result (Unit {0})) → P (d.adapters ++ (a ∷ [])) → P ((joined r a d).adapters)
      by_result (ok _) more = more
      by_result (err e) more = h
      by_result fault more = h

      by_lookup :
          (o : Option Adapter)
          → lookup a.protocol_type d.adapters ≡ o
          → length d.adapters < pal_max_adapters
          → Holds (elim o as (λ _. Answer × Directory × World) [
            | some other ↦ (finished (err already_initialized), d, w)
            | none ↦ let (r, w') = call a.init w in (finished r, joined r a d, w')
          ])
      by_lookup (some other) e room = h
      by_lookup none e room = by_result (call a.init w).0 (added a room e)
  perform-keeps (unregisters p) = by_lookup (lookup p d.adapters)
    where
      by_result : (r : Result (Unit {0})) (v : World) → Holds (left r p d v)
      by_result (ok _) v = removed p
      by_result (err e) v = removed p
      by_result fault v = h

      by_lookup :
          (o : Option Adapter)
          → Holds (elim o as (λ _. Answer × Directory × World) [
            | none ↦ (finished (err protocol_unknown), d, w)
            | some a ↦ let (r, w') = call a.cleanup w in left r p d w'
          ])
      by_lookup none = h
      by_lookup (some a) = by_result (call a.cleanup w).0 (call a.cleanup w).1
  perform-keeps (decodes p bytes) =
      dispatched-keeps message _ (lookup p d.adapters) (λ a. a.decode) (λ f. f bytes)
  perform-keeps (encodes m size) =
      dispatched-keeps packet _ (lookup m.protocol d.adapters) (λ a. a.encode) (λ f. f m size)

-- A call leaves room for the adapters, and at most one for a protocol.
pub perform-IsRoom :
    (d : Directory) (w : World) (c : Call)
    → length d.adapters ≤ pal_max_adapters
    → length ((perform c d w).1.adapters) ≤ pal_max_adapters
perform-IsRoom d w c h =
    perform-keeps (λ xs. length xs ≤ pal_max_adapters) d w h
      (λ a room e. omega (arith, room, length-snoc d.adapters a))
      (λ p. omega (arith, h, length-remove p d.adapters)) c

pub perform-IsDistinct :
    (d : Directory) (w : World) (c : Call)
    → IsDistinct d.adapters
    → IsDistinct ((perform c d w).1.adapters)
perform-IsDistinct d w c h =
    perform-keeps IsDistinct d w h (λ a room e. IsDistinct-append d.adapters a h e)
      (λ p. remove-IsDistinct p d.adapters h) c
