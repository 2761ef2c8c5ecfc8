-- ===== src/Bytes/Numbers/Decimal.antt =====
-- str(n) of an integer, read back.
use tessera_server.Common.{
  ℕ, zero, suc, ◌+◌, ◌-◌, ◌*◌, ◌/◌, ◌%◌, ◌<◌, ◌≤◌, ◌≡◌, refl, sym, ap, ◌∙◌, List, [], ◌∷◌, ◌++◌,
  arith, All, Bool-cases, inl, inr, ltb, if◌then◌else◌, ◌==◌,
}
use tessera_server.Common.Int.{ℤ, pos, negsuc}
use tessera_server.Bytes.Numbers.{decimal_onto, decimal, negate}

-- The number that decimal digits denote, behind what has been read.
abbrev pub read_decimal : ℕ → List ℕ → ℕ
read_decimal value [] = value
read_decimal value (b ∷ bs) = read_decimal (value * 10 + (b - 48)) bs

-- A leading minus negates.
unfoldable pub read_integer : List ℕ → ℤ
unfolding negate
read_integer [] = pos 0
read_integer (b ∷ bs) =
    if b == b'-' then negate (read_decimal 0 bs) else pos (read_decimal 0 (b ∷ bs))

read_decimal-onto :
    (fuel n : ℕ) (rest : List ℕ)
    → n < fuel
    → read_decimal 0 (decimal_onto fuel n rest) ≡ read_decimal n rest
unfolding decimal_onto
read_decimal-onto zero n rest h = absurd (omega arith)
read_decimal-onto (suc fuel) n rest h = elim (Bool-cases (ltb n 10)) [
  | inl e ↦ rw (e, decimal_onto) (ap (λ (v : ℕ). read_decimal v rest) (omega arith))
  | inr e ↦
      rw (e, decimal_onto)
        (read_decimal-onto fuel (n / 10) ((48 + n % 10) ∷ rest) (ground arith)
          ∙ ap (λ (v : ℕ). read_decimal v rest) (omega arith))
]

-- Decimal digits, in ASCII.
abbrev pub IsDigits : List ℕ → Type 0
IsDigits = All (λ b. (48 ≤ b) × (b ≤ 57))

decimal_onto-IsDigits :
    (fuel n : ℕ) (rest : List ℕ) → n < fuel → IsDigits rest → IsDigits (decimal_onto fuel n rest)
unfolding decimal_onto
decimal_onto-IsDigits zero n rest h d = absurd (omega arith)
decimal_onto-IsDigits (suc fuel) n rest h d = elim (Bool-cases (ltb n 10)) [
  | inl e ↦ rw (e, decimal_onto) ((omega arith, ground arith), d)
  | inr e ↦
      rw (e, decimal_onto)
        (decimal_onto-IsDigits fuel (n / 10) ((48 + n % 10) ∷ rest) (ground arith)
          ((omega arith, omega arith), d))
]

read_digits_integer :
    (bs : List ℕ) (n : ℕ) → IsDigits bs → read_decimal 0 bs ≡ n → read_integer bs ≡ pos n
unfolding read_integer
read_digits_integer [] n d h = ap pos h
read_digits_integer (b ∷ bs) n d h = ground (arith, d.0)

-- str(n) is read back, with the fuel that it is given.
pub read-decimal : (z : ℤ) → read_integer (decimal z) ≡ z
unfolding decimal negate read_integer
read-decimal (pos n) =
    read_digits_integer (decimal_onto (suc n) n []) n
      (decimal_onto-IsDigits (suc n) n [] (omega arith) tt)
      (read_decimal-onto (suc n) n [] (omega arith))
read-decimal (negsuc n) = rw (read_decimal-onto (suc (suc n)) (suc n) [] (omega arith)) refl

digits_printable : (bs : List ℕ) → IsDigits bs → All (λ b. 33 ≤ b) bs
digits_printable [] d = tt
digits_printable (b ∷ bs) d = (omega (arith, d.0.0), digits_printable bs d.1)

pub decimal_printable : (z : ℤ) → All (λ b. 33 ≤ b) (decimal z)
unfolding decimal
decimal_printable (pos n) = digits_printable _ (decimal_onto-IsDigits (suc n) n [] (omega arith) tt)
decimal_printable (negsuc n) = (
  omega arith,
  digits_printable _ (decimal_onto-IsDigits (suc (suc n)) (suc n) [] (omega arith) tt),
)

split_line :
    (a b x y : List ℕ)
    → All (λ c. 33 ≤ c) a
    → All (λ c. 33 ≤ c) b
    → a ++ 10 ∷ x ≡ b ++ 10 ∷ y
    → (a ≡ b) × (x ≡ y)
split_line [] [] x y p q e = (refl, ground arith)
split_line [] (d ∷ b) x y p q e = absurd (ground (arith, q.0))
split_line (c ∷ a) [] x y p q e = absurd (ground (arith, p.0))
split_line (c ∷ a) (d ∷ b) x y p q e =
    let (same, rest) = split_line a b x y p.1 q.1 (ground arith) in (ground arith, rest)

-- Up to a newline, the digits determine the integer, and what follows them.
pub decimal-line :
    (z w : ℤ) (x y : List ℕ) → decimal z ++ 10 ∷ x ≡ decimal w ++ 10 ∷ y → (z ≡ w) × (x ≡ y)
decimal-line z w x y e =
    let (same, rest) =
      split_line (decimal z) (decimal w) x y (decimal_printable z) (decimal_printable w) e in
    (sym (read-decimal z) ∙ (ap read_integer same ∙ read-decimal w), rest)
