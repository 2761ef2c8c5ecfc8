-- ===== src/Common/Text.antt =====
-- Python's `str` methods over native strings.
pub mod Laws
use Prim.Native.Nat.{ℕ, zero, suc, ◌+◌, ◌-◌, ◌*◌}
use Prim.Native.Char.{Char, code}
use Prim.Native.String.{String, [], ◌∷◌}
use mathlib.Core.Path.{◌≡◌, refl}
use mathlib.Core.Bool.{Bool, true, false, ◌&&◌, ◌||◌}
use mathlib.Core.Option.{Option, none, some}
use tessera_server.Common.Tests.{ltb, leb, ◌==◌, if◌then◌else◌}
use tessera_server.Common.Int.{ℤ, pos, negsuc}

-- len(s)
abbrev pub length : String → ℕ
length [] = 0
length (c ∷ s) = suc (length s)

-- s[:n]
abbrev pub take : ℕ → String → String
take zero s = []
take (suc n) [] = []
take (suc n) (c ∷ s) = c ∷ take n s

-- s[n:]
abbrev pub drop : ℕ → String → String
drop zero s = s
drop (suc n) [] = []
drop (suc n) (c ∷ s) = drop n s

-- s + t
abbrev pub append : String → String → String
append [] t = t
append (c ∷ s) t = c ∷ append s t

-- all(p(ord(c)) for c in s)
abbrev pub all : (ℕ → Bool) → String → Bool
all p [] = true
all p (c ∷ s) = p (code c) && all p s

-- any(p(ord(c)) for c in s)
abbrev pub any : (ℕ → Bool) → String → Bool
any p [] = false
any p (c ∷ s) = p (code c) || any p s

-- str.isspace of one code point
unfoldable pub is_space : ℕ → Bool
is_space c =
    (leb 9 c && leb c 13)
    || (leb 28 c && leb c 32)
    || c == 0x85
    || c == 0xA0
    || c == 0x1680
    || (leb 0x2000 c && leb c 0x200A)
    || c == 0x2028
    || c == 0x2029
    || c == 0x202F
    || c == 0x205F
    || c == 0x3000

-- s.lstrip()
pub lstrip : String → String
lstrip [] = []
lstrip (c ∷ s) = let rest = lstrip s in if is_space (code c) then rest else c ∷ s

-- A character before what is left of the rest: dropped if it is a space and nothing is left.
close : Char → String → String
close c [] = if is_space (code c) then [] else c ∷ []
close c (d ∷ t) = c ∷ d ∷ t

-- s.rstrip()
pub rstrip : String → String
rstrip [] = []
rstrip (c ∷ s) = close c (rstrip s)

-- s.strip()
unfoldable pub strip : String → String
unfolding is_space lstrip close rstrip
strip s = rstrip (lstrip s)

-- c in "0123456789abcdef"
abbrev pub is_lower_hex : ℕ → Bool
is_lower_hex c = (leb 48 c && leb c 57) || (leb 97 c && leb c 102)

-- ord(char) < 0x20 or ord(char) == 0x7F
abbrev pub is_control : ℕ → Bool
is_control c = ltb c 0x20 || c == 0x7F
