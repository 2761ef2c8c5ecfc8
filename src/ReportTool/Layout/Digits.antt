-- ===== src/ReportTool/Layout/Digits.antt =====
-- The digits that tools/tessera-reports prints, and those that are sent.
use Prim.Native.Char.{code}
use tessera_server.Common.{
  ℕ, zero, suc, ◌+◌, ◌/◌, ◌%◌, ◌<◌, ◌≡◌, refl, ap, ◌∙◌, String, List, [], ◌∷◌, arith, ltb,
  Bool-cases, inl, inr,
}
use tessera_server.Common.Int.{pos}
use tessera_server.Bytes.Codec.{hex_digit, digit_value}
use tessera_server.Bytes.Codec.Hex.{hex_digit_lower, hex_digit_value}
use tessera_server.Bytes.Numbers.{decimal, decimal_onto}
use tessera_server.ReportTool.Layout.{digits_onto, count_text}

-- [ord(char) for char in s]
abbrev codes : String → List ℕ
codes String.[] = []
codes (String.◌∷◌ c s) = code c ∷ codes s

code-hex_digit : (d : ℕ) → d < 10 → code (hex_digit d) ≡ 48 + d
unfolding digit_value
code-hex_digit d h =
    let lower = hex_digit_lower d (omega arith) in
    let same = hex_digit_value d (omega arith) in ground arith

codes-digits :
    (fuel n : ℕ) (rest : String)
    → codes (digits_onto fuel n rest) ≡ decimal_onto fuel n (codes rest)
unfolding digits_onto decimal_onto
codes-digits zero n rest = refl
codes-digits (suc fuel) n rest = elim (Bool-cases (ltb n 10)) [
  | inl e ↦
      rw (e, digits_onto, decimal_onto) (ap (λ c. c ∷ codes rest) (code-hex_digit n (ground arith)))
  | inr e ↦
      rw (e, digits_onto, decimal_onto)
        (codes-digits fuel (n / 10) (String.◌∷◌ (hex_digit (n % 10)) rest)
          ∙ ap (λ c. decimal_onto fuel (n / 10) (c ∷ codes rest))
              (code-hex_digit (n % 10) (omega arith)))
]

-- What is printed of a number are the bytes of the number, so the rounds are enough.
codes-count_text : (n : ℕ) → codes (count_text n) ≡ decimal (pos n)
unfolding decimal
codes-count_text n = codes-digits (suc n) n ""
