-- ===== src/Coap/Format.antt =====
-- The bytes of any CoAP packet, as RFC 7252 has them, described apart from the code.
use paum_io_t.Common.{
  ℕ, ◌+◌, ◌-◌, ◌*◌, ◌/◌, ◌%◌, ◌^◌, ◌≤◌, ◌<◌, List, [], ◌∷◌, ◌++◌, Option, none, some, length,
}
use paum_io_t.Coap.Fields.{CoapOption}
use paum_io_t.Coap.Parse.{CoapMessage}
use paum_io_t.Coap.Extension.{nibble, extension}
use paum_io_t.Coap.Written.{marked_bytes}

-- The number of an option and its value.
abbrev pub NumberedValue : Type 0
NumberedValue = ℕ × List ℕ

abbrev pub bytes_of : ℕ → ℕ → List ℕ → List ℕ
bytes_of prev number value =
    (nibble (number - prev) * 16 + nibble (length value))
    ∷ (extension (number - prev) ++ (extension (length value) ++ value))

-- The options after the option number `prev`.
unfoldable pub options_bytes : ℕ → List NumberedValue → List ℕ
options_bytes prev [] = []
options_bytes prev ((number, value) ∷ os) = bytes_of prev number value ++ options_bytes number os

-- The number of the last option, or `prev` if there is none.
abbrev pub last_number : ℕ → List NumberedValue → ℕ
last_number prev [] = prev
last_number prev ((number, value) ∷ os) = last_number number os

-- NULL stands for no bytes.
abbrev pub content : List ℕ → Option (List ℕ)
content [] = none
content (x ∷ xs) = some (x ∷ xs)

abbrev pub option_from : ℕ → List ℕ → CoapOption
option_from number value = record { number = number; size = length value; value = content value }

unfoldable pub options_from : List NumberedValue → List CoapOption
options_from [] = []
options_from ((number, value) ∷ os) = option_from number value ∷ options_from os

-- The numbers ascend and they and the lengths are below 2 ^ 16. An option without a value is not the
-- last thing in the packet, which ends with `tail`.
unfoldable pub IsReadable : ℕ → List NumberedValue → List ℕ → Type 0
IsReadable prev [] tail = Unit {0}
IsReadable prev ((number, value) ∷ os) tail =
    (prev ≤ number)
    × (number < 2 ^ 16)
    × (length value < 2 ^ 16)
    × (0 < length value + length os + length tail)
    × IsReadable number os tail

-- The first four bytes of a packet of version 1.
abbrev pub header_of : ℕ → List ℕ → ℕ → ℕ → List ℕ
header_of type token code id = (64 + type * 16 + length token) ∷ code ∷ (id / 256) ∷ (id % 256) ∷ []

abbrev pub message_bytes : ℕ → List ℕ → ℕ → ℕ → List NumberedValue → Option (List ℕ) → List ℕ
message_bytes type token code id os payload =
    header_of type token code id ++ (token ++ (options_bytes 0 os ++ marked_bytes payload))

abbrev pub message_from :
    ℕ → List ℕ → ℕ → ℕ → List NumberedValue → Option (List ℕ) → ℕ → CoapMessage
message_from type token code id os payload payload_len = record {
  version = 1;
  type = type;
  token_len = length token;
  code = code;
  message_id = id;
  token = token;
  options = options_from os;
  payload = payload;
  payload_len = payload_len;
}
