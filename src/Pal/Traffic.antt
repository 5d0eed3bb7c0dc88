-- ===== src/Pal/Traffic.antt =====
-- Packets and messages through the adapter table, its statistics and its end: src/pal/pal.c. A
-- context that is NULL is `none`.
use paum_io_t.Common.{
  ℕ, zero, suc, Bool, not, ◌||◌, List, [], ◌∷◌, Option, none, some, length, if◌then◌else◌,
}
use paum_io_t.Codes.{invalid_param, not_initialized, not_supported, protocol_unknown}
use paum_io_t.World.{World, M, Result, ok, err, fault, ◌>>=◌, ◌>>◌, return, free, add64}
use paum_io_t.Message.{Message, Protocol}
use paum_io_t.Pal.{Adapter, Stats, Context, Outcome, find_adapter, register, unregister, cleanup_of}

-- The statistics after a packet was decoded or a message encoded, with its length if it was.
unfoldable pub count_received : Result ℕ → Context → Context
count_received (ok n) ctx = record ctx {
  stats = record (ctx.stats) {
    messages_received = add64 ctx.stats.messages_received 1;
    bytes_received = add64 ctx.stats.bytes_received n;
  };
}
count_received (err e) ctx = record ctx {
  stats = record (ctx.stats) { errors = add64 ctx.stats.errors 1 };
}
count_received fault ctx = ctx

unfoldable pub count_sent : Result ℕ → Context → Context
count_sent (ok n) ctx = record ctx {
  stats = record (ctx.stats) {
    messages_sent = add64 ctx.stats.messages_sent 1;
    bytes_sent = add64 ctx.stats.bytes_sent n;
  };
}
count_sent (err e) ctx = record ctx {
  stats = record (ctx.stats) { errors = add64 ctx.stats.errors 1 };
}
count_sent fault ctx = ctx

-- The length of what a call returned.
abbrev pub measure {ℓ} : {A : Type ℓ} → (A → ℕ) → Result A → Result ℕ
measure f (ok a) = ok (f a)
measure f (err e) = err e
measure f fault = fault

unfoldable pub decode_packet : Context → Protocol → List ℕ → World → Outcome Message
unfolding count_received
decode_packet ctx p packet w =
    if not ctx.initialized then (err not_initialized, ctx, w) else elim (find_adapter ctx p) [
      | ok none ↦ (err protocol_unknown, ctx, w)
      | ok (some a) ↦ elim (a.decode) [
        | none ↦ (err not_supported, ctx, w)
        | some decode ↦
            let (r, w') = decode packet w in
            (r, count_received (measure (λ _. length packet) r) ctx, w')
      ]
      | err e ↦ (err e, ctx, w)
      | fault ↦ (fault, ctx, w)
    ]

unfoldable pub encode_message : Context → Message → ℕ → World → Outcome (List ℕ)
unfolding count_sent
encode_message ctx message packet_len w =
    if not ctx.initialized
    then (err not_initialized, ctx, w)
    else elim (find_adapter ctx message.protocol) [
      | ok none ↦ (err protocol_unknown, ctx, w)
      | ok (some a) ↦ elim (a.encode) [
        | none ↦ (err not_supported, ctx, w)
        | some encode ↦
            let (r, w') = encode message packet_len w in (r, count_sent (measure length r) ctx, w')
      ]
      | err e ↦ (err e, ctx, w)
      | fault ↦ (fault, ctx, w)
    ]

-- The calls of the interface: a result, the context if there is one, and the world.
abbrev pub Reply : Type 0 → Type 0
Reply A = Result A × Option Context × World

abbrev reply : {A : Type 0} → Outcome A → Reply A
reply o = (o.0, some o.1, o.2)

unfoldable pub pal_register_adapter : Option Context → Option Adapter → World → Reply (Unit {0})
unfolding register
pal_register_adapter none adapter w = (err invalid_param, none, w)
pal_register_adapter (some ctx) none w = (err invalid_param, some ctx, w)
pal_register_adapter (some ctx) (some adapter) w = reply (register ctx adapter w)

unfoldable pub pal_unregister_adapter : Option Context → Protocol → World → Reply (Unit {0})
unfolding unregister
pal_unregister_adapter none p w = (err invalid_param, none, w)
pal_unregister_adapter (some ctx) p w = reply (unregister ctx p w)

unfoldable pub pal_find_adapter : Option Context → Protocol → Result (Option Adapter)
unfolding find_adapter
pal_find_adapter none p = ok none
pal_find_adapter (some ctx) p = find_adapter ctx p

-- The last argument says whether `message` is not NULL.
unfoldable pub pal_decode_packet :
    Option Context → Protocol → Option (List ℕ) → Bool → World → Reply Message
unfolding decode_packet
pal_decode_packet none p packet message w = (err invalid_param, none, w)
pal_decode_packet (some ctx) p none message w = (err invalid_param, some ctx, w)
pal_decode_packet (some ctx) p (some packet) message w =
    if message then reply (decode_packet ctx p packet w) else (err invalid_param, some ctx, w)

-- The third and the fifth argument say whether `packet` and `bytes_written` are not NULL.
unfoldable pub pal_encode_message :
    Option Context → Option Message → Bool → ℕ → Bool → World → Reply (List ℕ)
unfolding encode_message
pal_encode_message none message packet packet_len bytes_written w = (err invalid_param, none, w)
pal_encode_message (some ctx) none packet packet_len bytes_written w =
    (err invalid_param, some ctx, w)
pal_encode_message (some ctx) (some message) packet packet_len bytes_written w =
    if not packet || not bytes_written
    then (err invalid_param, some ctx, w)
    else reply (encode_message ctx message packet_len w)

-- The last argument says whether `stats` is not NULL.
unfoldable pub pal_get_stats : Option Context → Bool → Result Stats
pal_get_stats none stats = err invalid_param
pal_get_stats (some ctx) stats =
    if not stats
    then err invalid_param
    else if not ctx.initialized
    then err not_initialized
    else ok ctx.stats

-- A call of a function that returns nothing: no error comes from it.
unfoldable pub void : M (Unit {0}) → M (Unit {0})
void f w =
    let (r, w') = f w in elim r [ ok _ ↦ (ok tt, w') | err e ↦ (ok tt, w') | fault ↦ (fault, w') ]

-- The loop of `pal_cleanup` over the first `num` entries.
unfoldable pub cleanup_all : ℕ → List (Option Adapter) → M (Unit {0})
unfolding ◌>>=◌ cleanup_of void
cleanup_all zero adapters = return tt
cleanup_all (suc num) [] = λ w. (fault, w)
cleanup_all (suc num) (a ∷ rest) = void (cleanup_of a) >> cleanup_all num rest

-- The configuration is never set, so `free(ctx->config)` frees nothing.
unfoldable pub pal_cleanup : Option Context → M (Unit {0})
unfolding ◌>>=◌ cleanup_all
pal_cleanup none = return tt
pal_cleanup (some ctx) =
    cleanup_all ctx.num_adapters ctx.adapters >> (free (some ctx.adapters) >> free (some ctx))
