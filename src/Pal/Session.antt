-- ===== src/Pal/Session.antt =====
-- Any sequence of calls on the adapter table, against the directory that it promises.
use paum_io_t.Common.{
  ℕ, ◌≤◌, ◌≡◌, refl, ap, ◌∙◌, arith, List, [], ◌∷◌, ◌++◌, Option, none, some, length, leb,
  Bool-cases, inl, inr,
}
use paum_io_t.Codes.{already_initialized, protocol_unknown, not_supported}
use paum_io_t.World.{World, Result, ok, err, fault, M}
use paum_io_t.Message.{Message, Protocol}
use paum_io_t.Pal.{Adapter, Stats, Context, Outcome, pal_max_adapters, call}
use paum_io_t.Pal.Table.{lookup, remove}
use paum_io_t.Pal.Registry.{table, register_in, register-eq-register_in}
use paum_io_t.Pal.Removal.{unregister_in, unregister-eq-unregister_in}
use paum_io_t.Pal.Dispatch.{decode_packet-dispatch, encode_message-dispatch, dispatch}
use paum_io_t.Pal.Dispatch
use paum_io_t.Pal.Traffic.{measure}
use paum_io_t.Pal.Capacity.{perform-IsRoom}
use paum_io_t.Pal.Directory.{
  Call, registers, unregisters, decodes, encodes, Answer, finished, message, packet, answer, serve,
  serve_all, Event, received, sent, Directory, tally, joined, left, perform, perform_all, stored,
  kept, dispatched,
}

-- The statistics after an answer are those of the longer log.
received-tally :
    (r : Result ℕ) (log : List Event) → Dispatch.received r (tally log) ≡ tally (received r ∷ log)
received-tally (ok n) log = ground arith
received-tally (err e) log = ground arith
received-tally fault log = ground arith

sent-tally : (r : Result ℕ) (log : List Event) → Dispatch.sent r (tally log) ≡ tally (sent r ∷ log)
sent-tally (ok n) log = ground arith
sent-tally (err e) log = ground arith
sent-tally fault log = ground arith

module _ (d : Directory) (w : World) where
  serve-registers :
      (a : Adapter) → serve (registers a) (stored d) w ≡ kept (perform (registers a) d w)
  unfolding serve perform register_in joined
  serve-registers a =
      ap (answer finished) (register-eq-register_in d.adapters (tally d.log) a w)
      ∙ elim (Bool-cases (leb pal_max_adapters (length d.adapters))) [
        | inl full ↦ rw full refl
        | inr room ↦ rw room (by_lookup (lookup a.protocol_type d.adapters))
      ]
    where
      after :
          (r : Result (Unit {0})) (v : World)
          → ◌≡◌ {A = Answer × Context × World}
              (answer finished (elim r as (λ _. Outcome (Unit {0})) [
                | ok _ ↦ (ok tt, table (d.adapters ++ (a ∷ [])) (tally d.log), v)
                | err e ↦ (err e, stored d, v)
                | fault ↦ (fault, stored d, v)
              ]))
              (kept (finished r, joined r a d, v))
      after (ok _) v = refl
      after (err e) v = refl
      after fault v = refl

      by_lookup :
          (o : Option Adapter)
          → ◌≡◌ {A = Answer × Context × World}
              (answer finished (elim o as (λ _. Outcome (Unit {0})) [
                | some other ↦ (err already_initialized, stored d, w)
                | none ↦
                    let (r, w') = call a.init w in
                    elim r [
                      | ok _ ↦ (ok tt, table (d.adapters ++ (a ∷ [])) (tally d.log), w')
                      | err e ↦ (err e, stored d, w')
                      | fault ↦ (fault, stored d, w')
                    ]
              ]))
              (kept (elim o as (λ _. Answer × Directory × World) [
                | some other ↦ (finished (err already_initialized), d, w)
                | none ↦ let (r, w') = call a.init w in (finished r, joined r a d, w')
              ]))
      by_lookup (some other) = refl
      by_lookup none = after (call a.init w).0 (call a.init w).1

  serve-unregisters :
      (p : Protocol)
      → length d.adapters ≤ pal_max_adapters
      → serve (unregisters p) (stored d) w ≡ kept (perform (unregisters p) d w)
  unfolding serve perform unregister_in left
  serve-unregisters p h =
      ap (answer finished) (unregister-eq-unregister_in d.adapters (tally d.log) p w h)
      ∙ by_lookup (lookup p d.adapters)
    where
      after :
          (r : Result (Unit {0})) (v : World)
          → ◌≡◌ {A = Answer × Context × World}
              (answer finished (elim r as (λ _. Outcome (Unit {0})) [
                | ok _ ↦ (ok tt, table (remove p d.adapters) (tally d.log), v)
                | err e ↦ (ok tt, table (remove p d.adapters) (tally d.log), v)
                | fault ↦ (fault, stored d, v)
              ]))
              (kept (left r p d v))
      after (ok _) v = refl
      after (err e) v = refl
      after fault v = refl

      by_lookup :
          (o : Option Adapter)
          → ◌≡◌ {A = Answer × Context × World}
              (answer finished (elim o as (λ _. Outcome (Unit {0})) [
                | none ↦ (err protocol_unknown, stored d, w)
                | some a ↦
                    let (r, w') = call a.cleanup w in
                    elim r [
                      | ok _ ↦ (ok tt, table (remove p d.adapters) (tally d.log), w')
                      | err e ↦ (ok tt, table (remove p d.adapters) (tally d.log), w')
                      | fault ↦ (fault, stored d, w')
                    ]
              ]))
              (kept (elim o as (λ _. Answer × Directory × World) [
                | none ↦ (finished (err protocol_unknown), d, w)
                | some a ↦ let (r, w') = call a.cleanup w in left r p d w'
              ]))
      by_lookup none = refl
      by_lookup (some a) = after (call a.cleanup w).0 (call a.cleanup w).1

  -- The two dispatching calls, for an adapter's function and the event that it leaves.
  module _ {A : Type 0} (mark : Result A → Answer) (event : Result A → Event)
      (count : Result A → Stats → Stats)
      (same : (r : Result A) → count r (tally d.log) ≡ tally (event r ∷ d.log)) where
    dispatch-dispatched {ℓ} :
        {F : Type ℓ} (o : Option Adapter) (function : Adapter → Option F) (run : F → M A)
        → answer mark (dispatch o function run count d.adapters (tally d.log) w)
          ≡ kept (dispatched o function run mark event d w)
    dispatch-dispatched none function run = refl
    dispatch-dispatched {F = F} (some a) function run = by_pointer (function a)
      where
        by_pointer :
            (f : Option F)
            → ◌≡◌ {A = Answer × Context × World}
                (answer mark (elim f as (λ _. Outcome A) [
                  | none ↦ (err not_supported, stored d, w)
                  | some g ↦
                      ((run g w).0, table d.adapters (count (run g w).0 (tally d.log)), (run g w).1)
                ]))
                (kept (elim f as (λ _. Answer × Directory × World) [
                  | none ↦ (mark (err not_supported), d, w)
                  | some g ↦
                      (mark (run g w).0, record d { log = event (run g w).0 ∷ d.log }, (run g w).1)
                ]))
        by_pointer none = refl
        by_pointer (some g) =
            ap (λ s. (mark (run g w).0, table d.adapters s, (run g w).1)) (same (run g w).0)

  serve-decodes :
      (p : Protocol) (bytes : List ℕ)
      → serve (decodes p bytes) (stored d) w ≡ kept (perform (decodes p bytes) d w)
  unfolding serve perform
  serve-decodes p bytes =
      ap (answer message) (decode_packet-dispatch d.adapters (tally d.log) p bytes w)
      ∙ dispatch-dispatched message (λ r. received (measure (λ _. length bytes) r))
          (λ r. Dispatch.received (measure (λ _. length bytes) r))
          (λ r. received-tally (measure (λ _. length bytes) r) d.log) (lookup p d.adapters)
          (λ a. a.decode) (λ f. f bytes)

  serve-encodes :
      (m : Message) (size : ℕ)
      → serve (encodes m size) (stored d) w ≡ kept (perform (encodes m size) d w)
  unfolding serve perform
  serve-encodes m size =
      ap (answer packet) (encode_message-dispatch d.adapters (tally d.log) m size w)
      ∙ dispatch-dispatched packet (λ r. sent (measure length r))
          (λ r. Dispatch.sent (measure length r)) (λ r. sent-tally (measure length r) d.log)
          (lookup m.protocol d.adapters) (λ a. a.encode) (λ f. f m size)

  pub serve-perform :
      (c : Call)
      → length d.adapters ≤ pal_max_adapters
      → serve c (stored d) w ≡ kept (perform c d w)
  serve-perform (registers a) h = serve-registers a
  serve-perform (unregisters p) h = serve-unregisters p h
  serve-perform (decodes p bytes) h = serve-decodes p bytes
  serve-perform (encodes m size) h = serve-encodes m size

-- Whatever is called in whatever order, from any directory of 16 adapters at most, the answers and
-- the world are those of the directory, and the context stands for the directory that is left: its
-- array holds the adapters in order, and its statistics count what the log says, modulo 2 ^ 64.
pub serve_all-perform_all :
    (calls : List Call) (d : Directory) (w : World)
    → length d.adapters ≤ pal_max_adapters
    → serve_all calls (stored d) w ≡ kept (perform_all calls d w)
unfolding serve_all perform_all
serve_all-perform_all [] d w h = refl
serve_all-perform_all (c ∷ calls) d w h =
    ap (λ r. next (r.0) (serve_all calls (r.1) (r.2))) (serve-perform d w c h)
    ∙ ap (next (perform c d w).0)
        (serve_all-perform_all calls (perform c d w).1 (perform c d w).2 (perform-IsRoom d w c h))
  where
    next : Answer → List Answer × Context × World → List Answer × Context × World
    next a r = (a ∷ r.0, r.1, r.2)
