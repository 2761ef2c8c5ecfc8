-- ===== src/Bytes/Codec/Hex.antt =====
-- bytes.hex and bytes.fromhex, one after the other.
use Prim.Native.Char.{code}
use tessera_server.Common.{
  ℕ, zero, suc, ◌*◌, ◌/◌, ◌%◌, ◌<◌, ◌≡◌, refl, ap₂, Bool, true, ◌&&◌, List, [], ◌∷◌, arith, All,
  length, ◌==◌, Bool-cases, inl, inr,
}
use tessera_server.Common.Text
use tessera_server.Common.Text.{all, is_lower_hex}
use tessera_server.Bytes.Codec.{hex, hex_digit, digit_value, from_hex}

-- A test of every number below a bound.
abbrev all_below : ℕ → (ℕ → Bool) → Bool
all_below zero test = true
all_below (suc n) test = test n && all_below n test

all_below_lem : (n : ℕ) (test : ℕ → Bool) (d : ℕ) → all_below n test ≡ true → d < n → test d ≡ true
all_below_lem zero test d h lt = absurd (omega arith)
all_below_lem (suc n) test d h lt = elim (Bool-cases (d == n)) [
  | inl e ↦ let same : d ≡ n = ground arith in rw same (ground arith)
  | inr e ↦ all_below_lem n test d (ground arith) (ground arith)
]

pub hex_digit_lower : (d : ℕ) → d < 16 → is_lower_hex (code (hex_digit d)) ≡ true
unfolding hex_digit
hex_digit_lower d = all_below_lem 16 (λ k. is_lower_hex (code (hex_digit k))) d refl

pub hex_digit_value : (d : ℕ) → d < 16 → digit_value (code (hex_digit d)) ≡ d
unfolding hex_digit digit_value
hex_digit_value d lt =
    let same = all_below_lem 16 (λ k. digit_value (code (hex_digit k)) == k) d refl lt in
    ground arith

-- Two lower-case hexadecimal digits for each byte.
pub hex-lower :
    (bs : List ℕ)
    → All (λ b. b < 256) bs
    → (Text.length (hex bs) ≡ 2 * length bs) × (all is_lower_hex (hex bs) ≡ true)
unfolding hex
hex-lower [] h = (refl, refl)
hex-lower (b ∷ bs) h =
    let (long, lower) = hex-lower bs h.1 in
    (
      omega arith,
      ground (
        arith,
        hex_digit_lower (b / 16) (omega (arith, h.0)),
        hex_digit_lower (b % 16) (omega arith),
      ),
    )

pub from_hex-hex : (bs : List ℕ) → All (λ b. b < 256) bs → from_hex (hex bs) ≡ bs
unfolding hex from_hex
from_hex-hex [] h = refl
from_hex-hex (b ∷ bs) h =
    let high = hex_digit_value (b / 16) (omega (arith, h.0)) in
    let low = hex_digit_value (b % 16) (omega arith) in
    ap₂ ◌∷◌ (rw (high, low) (omega arith)) (from_hex-hex bs h.1)
