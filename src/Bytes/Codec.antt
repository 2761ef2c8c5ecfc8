-- ===== src/Bytes/Codec.antt =====
-- bytes.hex, bytes.fromhex and str.encode.
pub mod Hex
pub mod Utf8
use Prim.Native.Char.{Char, code}
use tessera_server.Common.{
  ℕ, ◌+◌, ◌-◌, ◌*◌, ◌/◌, ◌%◌, String, Option, none, some, List, [], ◌∷◌, ◌++◌, ltb, leb, ◌==◌,
  if◌then◌else◌,
}

-- The character codes of a text that encodes to one byte each; `none` is UnicodeEncodeError.
unfoldable pub encode_ascii : String → Option (List ℕ)
encode_ascii String.[] = some []
encode_ascii (String.◌∷◌ c s) = elim (encode_ascii s) [
  | none ↦ none
  | some bs ↦ if ltb (code c) 128 then some (code c ∷ bs) else none
]

-- One code point in UTF-8.
unfoldable pub utf8_char : ℕ → List ℕ
utf8_char c =
    if ltb c 0x80
    then c ∷ []
    else if ltb c 0x800
    then (0xC0 + c / 64) ∷ (0x80 + c % 64) ∷ []
    else if ltb c 0x10000
    then (0xE0 + c / 4096) ∷ (0x80 + c / 64 % 64) ∷ (0x80 + c % 64) ∷ []
    else (0xF0 + c / 262144) ∷ (0x80 + c / 4096 % 64) ∷ (0x80 + c / 64 % 64) ∷ (0x80 + c % 64) ∷ []

unfoldable pub encode_utf8 : String → List ℕ
unfolding utf8_char
encode_utf8 String.[] = []
encode_utf8 (String.◌∷◌ c s) = utf8_char (code c) ++ encode_utf8 s

-- The lowercase hexadecimal digit of a number below 16.
unfoldable pub hex_digit : ℕ → Char
hex_digit d =
    if d == 0
    then "0"
    else if d == 1
    then "1"
    else if d == 2
    then "2"
    else if d == 3
    then "3"
    else if d == 4
    then "4"
    else if d == 5
    then "5"
    else if d == 6
    then "6"
    else if d == 7
    then "7"
    else if d == 8
    then "8"
    else if d == 9
    then "9"
    else if d == 10
    then "a"
    else if d == 11
    then "b"
    else if d == 12
    then "c"
    else if d == 13
    then "d"
    else if d == 14
    then "e"
    else "f"

-- bytes.hex()
unfoldable pub hex : List ℕ → String
hex [] = String.[]
hex (b ∷ bs) = String.◌∷◌ (hex_digit (b / 16)) (String.◌∷◌ (hex_digit (b % 16)) (hex bs))

unfoldable pub digit_value : ℕ → ℕ
digit_value c = if leb c 57 then c - 48 else c - 87

-- bytes.fromhex, on text that is already known to be pairs of lowercase digits
unfoldable pub from_hex : String → List ℕ
unfolding digit_value
from_hex String.[] = []
from_hex (String.◌∷◌ c String.[]) = []
from_hex (String.◌∷◌ c (String.◌∷◌ d s)) =
    (digit_value (code c) * 16 + digit_value (code d)) ∷ from_hex s
