-- ===== src/Bytes/Codec/Utf8.antt =====
-- str.encode, which gives different bytes to different texts.
use Prim.Native.Char.{Char, code}
use tessera_server.Common.{
  ℕ, ◌≡◌, refl, sym, ◌∙◌, ap₂, String, false, List, ◌∷◌, ◌++◌, arith, inl, inr,
}
use tessera_server.Common.{some, Option-cases, ◌==◌}
use tessera_server.Common.Text
use text.Mathlib.TextEquality.{Char-path}
use mathlib.Core.List.{append_assoc}
use tessera_server.Bytes.Codec.{utf8_char, encode_utf8, encode_ascii}

utf8_char-append :
    (c d : ℕ) (s t : List ℕ) → utf8_char c ++ s ≡ utf8_char d ++ t → (c ≡ d) × (s ≡ t)
unfolding utf8_char
utf8_char-append c d s t e = ground arith

newline-utf8 :
    (c : Char) (s : String)
    → (code c == 10) ≡ false
    → (x y : List ℕ) → 10 ∷ x ≡ encode_utf8 (String.◌∷◌ c s) ++ 10 ∷ y
    → ⊥
unfolding encode_utf8 utf8_char
newline-utf8 c s h x y e =
    let (same, rest) =
      utf8_char-append 10 (code c) x (encode_utf8 s ++ 10 ∷ y)
        (e ∙ append_assoc (utf8_char (code c)) (encode_utf8 s) (10 ∷ y)) in
    ground arith

-- Up to a newline, the bytes determine the text, and what follows it.
pub utf8-line :
    (s t : String) (x y : List ℕ)
    → Text.any (λ c. c == 10) s ≡ false
    → Text.any (λ c. c == 10) t ≡ false
    → encode_utf8 s ++ 10 ∷ x ≡ encode_utf8 t ++ 10 ∷ y
    → (s ≡ t) × (x ≡ y)
unfolding encode_utf8
utf8-line String.[] String.[] x y h k e = (refl, ground arith)
utf8-line String.[] (String.◌∷◌ d t) x y h k e = absurd (newline-utf8 d t (ground arith) x y e)
utf8-line (String.◌∷◌ c s) String.[] x y h k e =
    absurd (newline-utf8 c s (ground arith) y x (sym e))
utf8-line (String.◌∷◌ c s) (String.◌∷◌ d t) x y h k e =
    let (same, rest) =
      utf8_char-append (code c) (code d) (encode_utf8 s ++ 10 ∷ x) (encode_utf8 t ++ 10 ∷ y) (
        sym (append_assoc (utf8_char (code c)) (encode_utf8 s) (10 ∷ x))
        ∙ (e ∙ append_assoc (utf8_char (code d)) (encode_utf8 t) (10 ∷ y))) in
    let (text, after) = utf8-line s t x y (ground arith) (ground arith) rest in
    (ap₂ String.◌∷◌ (Char-path c d same) text, after)

-- A text that encodes to ASCII encodes to the same bytes in UTF-8.
pub ascii-utf8 : (s : String) (bs : List ℕ) → encode_ascii s ≡ some bs → bs ≡ encode_utf8 s
unfolding encode_ascii encode_utf8 utf8_char
ascii-utf8 String.[] bs h = ground arith
ascii-utf8 (String.◌∷◌ c s) bs h = elim (Option-cases (encode_ascii s)) [
  | inl e ↦ absurd (ground arith)
  | inr (rest, e) ↦ let same = ascii-utf8 s rest e in ground arith
]
