-- ===== src/Bytes/Numbers.antt =====
-- int(text, 10), str(int), int.from_bytes and int.to_bytes.
pub mod Digits
pub mod Decimal
use Prim.Native.Char.{code}
use tessera_server.Common.{
  ℕ, zero, suc, ◌+◌, ◌-◌, ◌*◌, ◌/◌, ◌%◌, String, Bool, true, false, ◌&&◌, Option, none, some, List,
  [], ◌∷◌, ltb, leb, ◌==◌, if◌then◌else◌,
}
use tessera_server.Common.Int.{ℤ, pos, negsuc}
use tessera_server.Common.Text.{strip}

-- The zeros of the decimal digits of Unicode that are not ASCII; nine digits follow each.
abbrev zeros : List ℕ
zeros =
    0x660 ∷ 0x6f0 ∷ 0x7c0 ∷ 0x966 ∷ 0x9e6 ∷ 0xa66 ∷ 0xae6 ∷ 0xb66 ∷ 0xbe6 ∷ 0xc66 ∷ 0xce6 ∷ 0xd66
    ∷ 0xde6 ∷ 0xe50 ∷ 0xed0 ∷ 0xf20 ∷ 0x1040 ∷ 0x1090 ∷ 0x17e0 ∷ 0x1810 ∷ 0x1946 ∷ 0x19d0 ∷ 0x1a80
    ∷ 0x1a90 ∷ 0x1b50 ∷ 0x1bb0 ∷ 0x1c40 ∷ 0x1c50 ∷ 0xa620 ∷ 0xa8d0 ∷ 0xa900 ∷ 0xa9d0 ∷ 0xa9f0
    ∷ 0xaa50 ∷ 0xabf0 ∷ 0xff10 ∷ 0x104a0 ∷ 0x10d30 ∷ 0x11066 ∷ 0x110f0 ∷ 0x11136 ∷ 0x111d0 ∷ 0x112f0
    ∷ 0x11450 ∷ 0x114d0 ∷ 0x11650 ∷ 0x116c0 ∷ 0x11730 ∷ 0x118e0 ∷ 0x11950 ∷ 0x11c50 ∷ 0x11d50
    ∷ 0x11da0 ∷ 0x16a60 ∷ 0x16ac0 ∷ 0x16b50 ∷ 0x1d7ce ∷ 0x1d7d8 ∷ 0x1d7e2 ∷ 0x1d7ec ∷ 0x1d7f6
    ∷ 0x1e140 ∷ 0x1e2f0 ∷ 0x1e950 ∷ 0x1fbf0 ∷ []

abbrev digit_from : List ℕ → ℕ → Option ℕ
digit_from [] c = none
digit_from (z ∷ zs) c =
    let later = digit_from zs c in if leb z c && ltb c (z + 10) then some (c - z) else later

-- The value of a decimal digit; a letter and a mark are none.
unfoldable pub digit : ℕ → Option ℕ
digit c =
    if leb 48 c && leb c 57 then some (c - 48) else if ltb c 128 then none else digit_from zeros c

-- The digits of an integer literal: the value read so far, the digits read so far, and whether
-- the last character was a digit, as an underscore may stand only between two digits.
unfoldable pub read_digits : ℕ → ℕ → Bool → String → Option ℕ
unfolding digit
read_digits value count after String.[] = if after && leb count 4300 then some value else none
read_digits value count after (String.◌∷◌ c s) = elim (digit (code c)) [
  | some d ↦ read_digits (value * 10 + d) (suc count) true s
  | none ↦
      let rest = read_digits value count false s in if code c == b'_' && after then rest else none
]

negate : ℕ → ℤ
negate zero = pos 0
negate (suc n) = negsuc n

read_signed : String → Option ℤ
unfolding read_digits negate
read_signed String.[] = none
read_signed (String.◌∷◌ c s) =
    if code c == b'-'
    then elim (read_digits 0 0 false s) [ none ↦ none | some n ↦ some (negate n) ]
    else if code c == b'+'
    then elim (read_digits 0 0 false s) [ none ↦ none | some n ↦ some (pos n) ]
    else elim (read_digits 0 0 false (String.◌∷◌ c s)) [ none ↦ none | some n ↦ some (pos n) ]

-- int(text, 10); `none` is ValueError
unfoldable pub parse_int : String → Option ℤ
unfolding read_signed strip
parse_int s = read_signed (strip s)

-- The decimal digits of n, in front of `rest`; n + 1 rounds are always enough.
unfoldable pub decimal_onto : ℕ → ℕ → List ℕ → List ℕ
decimal_onto zero n rest = rest
decimal_onto (suc fuel) n rest =
    let more = decimal_onto fuel (n / 10) ((48 + n % 10) ∷ rest) in
    if ltb n 10 then (48 + n) ∷ rest else more

-- str(n).encode("ascii")
unfoldable pub decimal : ℤ → List ℕ
unfolding decimal_onto
decimal (pos n) = decimal_onto (suc n) n []
decimal (negsuc n) = b'-' ∷ decimal_onto (suc (suc n)) (suc n) []

-- int.from_bytes(bytes, "little")
unfoldable pub from_little : List ℕ → ℕ
from_little [] = 0
from_little (b ∷ bs) = b + 256 * from_little bs

-- int.from_bytes(bytes, "big")
unfoldable pub from_big : ℕ → List ℕ → ℕ
from_big acc [] = acc
from_big acc (b ∷ bs) = from_big (acc * 256 + b) bs

-- n.to_bytes(k, "little"), for n that fits
unfoldable pub to_little : ℕ → ℕ → List ℕ
to_little zero n = []
to_little (suc k) n = (n % 256) ∷ to_little k (n / 256)
