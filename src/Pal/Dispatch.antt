-- ===== src/Pal/Dispatch.antt =====
-- What goes through the adapter table: the two dispatching calls against the adapter that is
-- registered, and a message on its way out and back in.
use paum_io_t.Common.{ℕ, ◌≡◌, refl, ap, List, Option, none, some, length}
use paum_io_t.Codes.{protocol_unknown, not_supported}
use paum_io_t.World.{World, M, Result, ok, err, fault, add64}
use paum_io_t.Message.{Message, Protocol}
use paum_io_t.Pal.{Adapter, Stats, Outcome}
use paum_io_t.Pal.Table.{lookup}
use paum_io_t.Pal.Registry.{table, find_adapter-lookup}
use paum_io_t.Pal.Traffic.{measure, count_received, count_sent, decode_packet, encode_message}

-- The statistics after a result.
abbrev pub received : Result ℕ → Stats → Stats
received (ok n) s = record s {
  messages_received = add64 s.messages_received 1;
  bytes_received = add64 s.bytes_received n;
}
received (err e) s = record s { errors = add64 s.errors 1 }
received fault s = s

abbrev pub sent : Result ℕ → Stats → Stats
sent (ok n) s = record s {
  messages_sent = add64 s.messages_sent 1;
  bytes_sent = add64 s.bytes_sent n;
}
sent (err e) s = record s { errors = add64 s.errors 1 }
sent fault s = s

-- What a call of a registered adapter's function does.
abbrev pub dispatch {ℓ} :
    {A : Type 0} {F : Type ℓ}
    → Option Adapter
    → (Adapter → Option F)
    → (F → M A)
    → (Result A → Stats → Stats)
    → List Adapter
    → Stats
    → World
    → Outcome A
dispatch none function run count xs stats w = (err protocol_unknown, table xs stats, w)
dispatch (some a) function run count xs stats w = elim (function a) [
  | none ↦ (err not_supported, table xs stats, w)
  | some f ↦ ((run f w).0, table xs (count (run f w).0 stats), (run f w).1)
]

count_received-eq :
    (r : Result ℕ) (xs : List Adapter) (s : Stats)
    → count_received r (table xs s) ≡ table xs (received r s)
unfolding count_received
count_received-eq (ok n) xs s = refl
count_received-eq (err e) xs s = refl
count_received-eq fault xs s = refl

count_sent-eq :
    (r : Result ℕ) (xs : List Adapter) (s : Stats) → count_sent r (table xs s) ≡ table xs (sent r s)
unfolding count_sent
count_sent-eq (ok n) xs s = refl
count_sent-eq (err e) xs s = refl
count_sent-eq fault xs s = refl

-- Decoding through the table is decoding by the adapter that is registered for the protocol, with
-- the result counted in the statistics. Without an adapter, or if it has no decoder, it is an error
-- that changes nothing.
pub decode_packet-dispatch :
    (xs : List Adapter) (stats : Stats) (p : Protocol) (packet : List ℕ) (w : World)
    → decode_packet (table xs stats) p packet w
      ≡ dispatch
          (lookup p xs)
          (λ a. a.decode)
          (λ f. f packet)
          (λ r. received (measure (λ _. length packet) r))
          xs
          stats
          w
unfolding decode_packet
decode_packet-dispatch xs stats p packet w =
    rw (find_adapter-lookup p xs stats) (by_adapter (lookup p xs))
  where
    by_decoder :
        (f : Option (List ℕ → M Message))
        → ◌≡◌ {A = Outcome Message}
            (elim f [
              | none ↦ (err not_supported, table xs stats, w)
              | some decode ↦ (
                (decode packet w).0,
                count_received (measure (λ _. length packet) (decode packet w).0) (table xs stats),
                (decode packet w).1,
              )
            ])
            (elim f [
              | none ↦ (err not_supported, table xs stats, w)
              | some decode ↦ (
                (decode packet w).0,
                table xs (received (measure (λ _. length packet) (decode packet w).0) stats),
                (decode packet w).1,
              )
            ])
    by_decoder none = refl
    by_decoder (some f) =
        ap (λ c. ((f packet w).0, c, (f packet w).1))
          (count_received-eq (measure (λ _. length packet) (f packet w).0) xs stats)

    by_adapter :
        (o : Option Adapter)
        → ◌≡◌ {A = Outcome Message}
            (elim o [
              | none ↦ (err protocol_unknown, table xs stats, w)
              | some a ↦ elim (a.decode) [
                | none ↦ (err not_supported, table xs stats, w)
                | some decode ↦ (
                  (decode packet w).0,
                  count_received
                      (measure (λ _. length packet) (decode packet w).0)
                      (table xs stats),
                  (decode packet w).1,
                )
              ]
            ])
            (dispatch o
              (λ a. a.decode)
              (λ f. f packet)
              (λ r. received (measure (λ _. length packet) r))
              xs
              stats
              w)
    by_adapter none = refl
    by_adapter (some a) = by_decoder a.decode

-- Encoding through the table, in the same way.
pub encode_message-dispatch :
    (xs : List Adapter) (stats : Stats) (m : Message) (size : ℕ) (w : World)
    → encode_message (table xs stats) m size w
      ≡ dispatch
          (lookup m.protocol xs)
          (λ a. a.encode)
          (λ f. f m size)
          (λ r. sent (measure length r))
          xs
          stats
          w
unfolding encode_message
encode_message-dispatch xs stats m size w =
    rw (find_adapter-lookup m.protocol xs stats) (by_adapter (lookup m.protocol xs))
  where
    by_encoder :
        (f : Option (Message → ℕ → M (List ℕ)))
        → ◌≡◌ {A = Outcome (List ℕ)}
            (elim f [
              | none ↦ (err not_supported, table xs stats, w)
              | some encode ↦ (
                (encode m size w).0,
                count_sent (measure length (encode m size w).0) (table xs stats),
                (encode m size w).1,
              )
            ])
            (elim f [
              | none ↦ (err not_supported, table xs stats, w)
              | some encode ↦ (
                (encode m size w).0,
                table xs (sent (measure length (encode m size w).0) stats),
                (encode m size w).1,
              )
            ])
    by_encoder none = refl
    by_encoder (some f) =
        ap (λ c. ((f m size w).0, c, (f m size w).1))
          (count_sent-eq (measure length (f m size w).0) xs stats)

    by_adapter :
        (o : Option Adapter)
        → ◌≡◌ {A = Outcome (List ℕ)}
            (elim o [
              | none ↦ (err protocol_unknown, table xs stats, w)
              | some a ↦ elim (a.encode) [
                | none ↦ (err not_supported, table xs stats, w)
                | some encode ↦ (
                  (encode m size w).0,
                  count_sent (measure length (encode m size w).0) (table xs stats),
                  (encode m size w).1,
                )
              ]
            ])
            (dispatch o (λ a. a.encode) (λ f. f m size) (λ r. sent (measure length r)) xs stats w)
    by_adapter none = refl
    by_adapter (some a) = by_encoder a.encode
