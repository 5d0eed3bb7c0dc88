-- ===== src/Coap/ReadPacket.antt =====
-- The decoder of the adapter on any CoAP packet.
use paum_io_t.Common.{
  ℕ, ◌+◌, ◌*◌, ◌<◌, List, [], ◌∷◌, Option, none, some, length, ◌==◌, ◌&&◌, leb, if◌then◌else◌, All,
}
use paum_io_t.World.{Text, Env, Grants, World, M, return, strdup}
use paum_io_t.Message.{Message}
use paum_io_t.Coap.Fields.{option_content_format, coap_get_content_type}
use paum_io_t.Coap.Format.{NumberedValue}

-- A number of two bytes at most, the high byte first.
abbrev pub big_endian : List ℕ → ℕ
big_endian [] = 0
big_endian (a ∷ []) = a
big_endian (a ∷ b ∷ bs) = a * 256 + b

-- The number in the first Content-Format option of two bytes at most.
unfoldable pub format_number : List NumberedValue → Option ℕ
format_number [] = none
format_number ((number, value) ∷ os) =
    let rest = format_number os in
    if number == option_content_format && leb (length value) 2
    then some (big_endian value)
    else rest

abbrev pub format_text : Option ℕ → Option Text
format_text none = none
format_text (some format) = some (coap_get_content_type format)

abbrev pub IsBytes : NumberedValue → Type 0
IsBytes (number, value) = All (λ b. b < 256) value

module _ (env : Env) (grants : Grants env) where
  -- The string for a format, if there is one.
  abbrev described : Option ℕ → M (Option Text)
  described format = elim format [
    | none ↦ return none
    | some number ↦ strdup env (coap_get_content_type number)
  ]
