-- ===== src/Pal/Reach.antt =====
-- The contexts that the calls of the interface lead to.
use paum_io_t.Common.{ℕ, ◌+◌, ◌≤◌, ◌≡◌, refl, sym, subst, arith, List, [], none, some, length}
use paum_io_t.World.{World, Env}
use paum_io_t.Message.{Message, Protocol}
use paum_io_t.Pal.{Adapter, Context, no_stats, pal_max_adapters, call, register, unregister}
use paum_io_t.Pal.Registry.{table}
use paum_io_t.Pal.Traffic.{decode_packet, encode_message}
use paum_io_t.Pal.Distinct.{IsDistinct}
use paum_io_t.Pal.Directory.{
  Call, registers, unregisters, decodes, encodes, serve, Event, Directory, tally, perform,
}
use paum_io_t.Pal.Capacity.{perform-IsRoom, perform-IsDistinct}
use paum_io_t.Pal.Session.{serve-perform}
use paum_io_t.World.Rules.{Ensures}
use paum_io_t.Pal.{pal_init}

-- A context that some list of adapters describes, at most one for a protocol and at most 16 in all. The
-- log is what the statistics are counted from.
pub record IsTable (c : Context) : Type 0 where
  pub adapters : List Adapter
  pub log : List Event
  pub same : c ≡ table adapters (tally log)
  pub room : length adapters ≤ pal_max_adapters
  pub distinct : IsDistinct adapters

-- The contexts that the calls lead to, from the one that `pal_init` makes.
pub data Reached : Context → Type 0 where
  started : Reached (table [] no_stats)
  registered : (c : Context) (a : Adapter) (w : World) → Reached c → Reached ((register c a w).1)
  unregistered :
      (c : Context) (p : Protocol) (w : World) → Reached c → Reached ((unregister c p w).1)
  decoded :
      (c : Context) (p : Protocol) (packet : List ℕ) (w : World)
      → Reached c
      → Reached ((decode_packet c p packet w).1)
  encoded :
      (c : Context) (m : Message) (size : ℕ) (w : World)
      → Reached c
      → Reached ((encode_message c m size w).1)

-- A call on a table leaves a table.
serve-IsTable : (call : Call) (c : Context) (w : World) → IsTable c → IsTable ((serve call c w).1)
serve-IsTable call c w t =
    let d : Directory = record { adapters = t.adapters; log = t.log } in
    subst (λ x. IsTable ((serve call x w).1)) (sym t.same)
      (subst (λ r. IsTable (r.1)) (sym (serve-perform d w call t.room))
        (record {
          adapters = (perform call d w).1.adapters;
          log = (perform call d w).1.log;
          same = refl;
          room = perform-IsRoom d w call t.room;
          distinct = perform-IsDistinct d w call t.distinct;
        }))

-- A context that the calls lead to is a table: the array holds the registered adapters without a gap
-- and NULL behind them, there are at most 16, and no two are for the same protocol.
pub Reached-IsTable : (c : Context) → Reached c → IsTable c
unfolding serve
Reached-IsTable _ started = record {
  adapters = [];
  log = [];
  same = refl;
  room = omega arith;
  distinct = unfold IsDistinct in tt;
}
Reached-IsTable _ (registered c a w r) = serve-IsTable (registers a) c w (Reached-IsTable c r)
Reached-IsTable _ (unregistered c p w r) = serve-IsTable (unregisters p) c w (Reached-IsTable c r)
Reached-IsTable _ (decoded c p packet w r) =
    serve-IsTable (decodes p packet) c w (Reached-IsTable c r)
Reached-IsTable _ (encoded c m size w r) = serve-IsTable (encodes m size) c w (Reached-IsTable c r)

-- `pal_init` makes the first of these contexts, if both requests for memory are granted, and
-- otherwise returns NULL and holds no more memory than before.
pub pal_init-Reached :
    (env : Env) (w : World)
    → Ensures
        (λ o v. elim o [ none ↦ v.live ≡ w.live | some c ↦ Reached c × (v.live ≡ w.live + 2) ])
        (λ e v. ⊥)
        (pal_init env w)
unfolding pal_init
pal_init-Reached env w = ground (arith, started)
