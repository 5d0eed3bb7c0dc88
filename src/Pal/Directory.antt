-- ===== src/Pal/Directory.antt =====
-- What the adapter table promises: a list of adapters, and a log of what they answered, from which
-- the statistics are counted.
use paum_io_t.Common.{
  ℕ, ◌+◌, ◌%◌, ◌^◌, List, [], ◌∷◌, ◌++◌, Option, none, some, length, leb, if◌then◌else◌,
}
use paum_io_t.Codes.{out_of_memory, already_initialized, protocol_unknown, not_supported}
use paum_io_t.World.{World, M, Result, ok, err, fault}
use paum_io_t.Message.{Message, Protocol}
use paum_io_t.Pal.{Adapter, Stats, Context, Outcome, pal_max_adapters, call, register, unregister}
use paum_io_t.Pal.Table.{lookup, remove}
use paum_io_t.Pal.Registry.{table}
use paum_io_t.Pal.Traffic.{measure, decode_packet, encode_message}

-- A call on a context that is not NULL.
pub data Call : Type 0 where
  registers : Adapter → Call
  unregisters : Protocol → Call
  decodes : Protocol → List ℕ → Call
  encodes : Message → ℕ → Call

pub data Answer : Type 0 where
  finished : Result (Unit {0}) → Answer
  message : Result Message → Answer
  packet : Result (List ℕ) → Answer

abbrev pub answer : {A : Type 0} → (Result A → Answer) → Outcome A → Answer × Context × World
answer f o = (f o.0, o.1, o.2)

unfoldable pub serve : Call → Context → World → Answer × Context × World
serve (registers a) c w = answer finished (register c a w)
serve (unregisters p) c w = answer finished (unregister c p w)
serve (decodes p bytes) c w = answer message (decode_packet c p bytes w)
serve (encodes m size) c w = answer packet (encode_message c m size w)

unfoldable pub serve_all : List Call → Context → World → List Answer × Context × World
unfolding serve
serve_all [] c w = ([], c, w)
serve_all (call ∷ calls) c w =
    let (a, c', w') = serve call c w in
    let (as_, c'', w'') = serve_all calls c' w' in (a ∷ as_, c'', w'')

-- What an adapter answered, with the length of the packet.
pub data Event : Type 0 where
  received : Result ℕ → Event
  sent : Result ℕ → Event

-- `log` has the latest event first.
pub record Directory : Type 0 where
  pub adapters : List Adapter
  pub log : List Event

abbrev pub total : (Event → ℕ) → List Event → ℕ
total f [] = 0
total f (e ∷ es) = total f es + f e

-- How many packets were decoded and encoded, their bytes, and how many failed.
abbrev pub packets_in : Event → ℕ
packets_in (received (ok n)) = 1
packets_in _ = 0

abbrev pub bytes_in : Event → ℕ
bytes_in (received (ok n)) = n
bytes_in _ = 0

abbrev pub packets_out : Event → ℕ
packets_out (sent (ok n)) = 1
packets_out _ = 0

abbrev pub bytes_out : Event → ℕ
bytes_out (sent (ok n)) = n
bytes_out _ = 0

abbrev pub failures : Event → ℕ
failures (received (err e)) = 1
failures (sent (err e)) = 1
failures _ = 0

abbrev pub tally : List Event → Stats
tally log = record {
  messages_received = total packets_in log % 2 ^ 64;
  messages_sent = total packets_out log % 2 ^ 64;
  bytes_received = total bytes_in log % 2 ^ 64;
  bytes_sent = total bytes_out log % 2 ^ 64;
  errors = total failures log % 2 ^ 64;
}

-- An answer of an adapter's initialisation: only a success adds it.
unfoldable pub joined : Result (Unit {0}) → Adapter → Directory → Directory
joined (ok _) a d = record d { adapters = d.adapters ++ (a ∷ []) }
joined _ a d = d

-- An adapter leaves whether its cleanup fails or not.
unfoldable pub left : Result (Unit {0}) → Protocol → Directory → World → Answer × Directory × World
left fault p d w = (finished fault, d, w)
left _ p d w = (finished (ok tt), record d { adapters = remove p d.adapters }, w)

-- A call of a registered adapter's function, and the event that it leaves.
abbrev pub dispatched {ℓ} :
    {A : Type 0} {F : Type ℓ}
    → Option Adapter
    → (Adapter → Option F)
    → (F → M A)
    → (Result A → Answer)
    → (Result A → Event)
    → Directory
    → World
    → Answer × Directory × World
dispatched none function run mark event d w = (mark (err protocol_unknown), d, w)
dispatched (some a) function run mark event d w = elim (function a) [
  | none ↦ (mark (err not_supported), d, w)
  | some f ↦ (mark (run f w).0, record d { log = event (run f w).0 ∷ d.log }, (run f w).1)
]

-- The same calls on a directory.
unfoldable pub perform : Call → Directory → World → Answer × Directory × World
unfolding joined left
perform (registers a) d w =
    if leb pal_max_adapters (length d.adapters)
    then (finished (err out_of_memory), d, w)
    else elim (lookup a.protocol_type d.adapters) [
      | some other ↦ (finished (err already_initialized), d, w)
      | none ↦ let (r, w') = call a.init w in (finished r, joined r a d, w')
    ]
perform (unregisters p) d w = elim (lookup p d.adapters) [
  | none ↦ (finished (err protocol_unknown), d, w)
  | some a ↦ let (r, w') = call a.cleanup w in left r p d w'
]
perform (decodes p bytes) d w =
    dispatched (lookup p d.adapters) (λ a. a.decode) (λ f. f bytes) message
      (λ r. received (measure (λ _. length bytes) r)) d w
perform (encodes m size) d w =
    dispatched (lookup m.protocol d.adapters) (λ a. a.encode) (λ f. f m size) packet
      (λ r. sent (measure length r)) d w

unfoldable pub perform_all : List Call → Directory → World → List Answer × Directory × World
unfolding perform
perform_all [] d w = ([], d, w)
perform_all (call ∷ calls) d w =
    let (a, d', w') = perform call d w in
    let (as_, d'', w'') = perform_all calls d' w' in (a ∷ as_, d'', w'')

-- The context that stands for a directory.
abbrev pub stored : Directory → Context
stored d = table d.adapters (tally d.log)

abbrev pub kept {ℓ} : {A : Type ℓ} → A × Directory × World → A × Context × World
kept r = (r.0, stored r.1, r.2)
