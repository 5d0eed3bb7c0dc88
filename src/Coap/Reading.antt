-- ===== src/Coap/Reading.antt =====
-- The options that the CoAP encoder writes for a path, as options of Coap.Format.
use paum_io_t.Common.{
  ℕ, ◌+◌, ◌-◌, ◌*◌, ◌^◌, ◌≤◌, ◌<◌, ◌≡◌, refl, ap, ap₂, arith, List, [], ◌∷◌, ◌++◌, some, length,
  All,
}
use paum_io_t.World.{Text}
use paum_io_t.Coap.Fields.{CoapOption, option_uri_path}
use paum_io_t.Coap.Extension.{nibble, extension}
use paum_io_t.Coap.Layout.{option_bytes, path_bytes}
use paum_io_t.Coap.Format.{NumberedValue, bytes_of, options_bytes, options_from, IsReadable}

-- The option that a segment is read as.
abbrev pub option_of : Text → CoapOption
option_of s = record { number = option_uri_path; size = length s; value = some s }

unfoldable pub options_of : List Text → List CoapOption
options_of [] = []
options_of (s ∷ ss) = option_of s ∷ options_of ss

abbrev pub numbered : List Text → List NumberedValue
numbered [] = []
numbered (s ∷ ss) = (option_uri_path, s) ∷ numbered ss

pub option_bytes-eq : (prev : ℕ) (s : Text) → prev ≤ 11 → option_bytes prev s ≡ bytes_of prev 11 s
option_bytes-eq prev s p =
    ap₂ (λ d e. (d * 16 + nibble (length s)) ∷ (e ++ (extension (length s) ++ s))) small no_delta
  where
    small : 11 - prev ≡ nibble (11 - prev)
    small = ground arith

    no_delta : [] ≡ extension (11 - prev)
    no_delta = ground arith

pub path_bytes-eq :
    (prev : ℕ) (ss : List Text) → prev ≤ 11 → path_bytes prev ss ≡ options_bytes prev (numbered ss)
unfolding path_bytes options_bytes
path_bytes-eq prev [] p = refl
path_bytes-eq prev (s ∷ ss) p =
    ap₂ (λ a b. a ++ b) (option_bytes-eq prev s p) (path_bytes-eq 11 ss (omega arith))

pub options_from-numbered :
    (ss : List Text) → All (λ s. 0 < length s) ss → options_from (numbered ss) ≡ options_of ss
unfolding options_from options_of
options_from-numbered [] long = refl
options_from-numbered ([] ∷ ss) long = absurd (omega (arith, long.0))
options_from-numbered ((c ∷ cs) ∷ ss) long =
    ap (λ t. option_of (c ∷ cs) ∷ t) (options_from-numbered ss long.1)

pub numbered-IsReadable :
    (prev : ℕ) (ss : List Text) (tail : List ℕ)
    → prev ≤ 11
    → All (λ s. length s < 2 ^ 16) ss
    → All (λ s. 0 < length s) ss
    → IsReadable prev (numbered ss) tail
unfolding IsReadable
numbered-IsReadable prev [] tail q short long = tt
numbered-IsReadable prev (s ∷ ss) tail q short long = (
  q,
  omega arith,
  short.0,
  omega (arith, long.0),
  numbered-IsReadable 11 ss tail (omega arith) short.1 long.1,
)
