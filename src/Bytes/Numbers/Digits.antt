-- ===== src/Bytes/Numbers/Digits.antt =====
-- int(text, 10) of a text that consists of digits.
use Prim.Native.Char.{code}
use tessera_server.Common.{
  ℕ, zero, suc, ◌+◌, ◌-◌, ◌*◌, ◌^◌, ◌≤◌, ◌<◌, ◌≡◌, ◌⊎◌, inl, inr, refl, sym, ap, ◌∙◌, String, Bool,
  true, false, ◌&&◌, ◌||◌, not, Option, none, some, List, [], ◌∷◌, arith, ltb, leb, ◌==◌,
  Bool-cases, Option-cases, if◌then◌else◌,
}
use tessera_server.Common.Int.{pos}
use tessera_server.Common.Text.{length, all, is_space}
use tessera_server.Common.Text.Laws.{strip_lem}
use tessera_server.Bytes.Numbers.{zeros, digit_from, digit, read_digits, read_signed, parse_int}

-- \d of one code point
abbrev pub is_digit : ℕ → Bool
is_digit c = elim (digit c) [ none ↦ false | some _ ↦ true ]

digit_from_small : (zs : List ℕ) (c d : ℕ) → digit_from zs c ≡ some d → d ≤ 9
digit_from_small [] c d h = absurd (ground arith)
digit_from_small (z ∷ zs) c d h = ground (arith, digit_from_small zs c d)

digit_small : (c d : ℕ) → digit c ≡ some d → d ≤ 9
unfolding digit
digit_small c d h = elim (Bool-cases (leb 48 c && leb c 57)) [
  | inl e ↦ ground arith
  | inr e ↦ elim (Bool-cases (ltb c 128)) [
    | inl f ↦ absurd (ground arith)
    | inr f ↦ digit_from_small zeros c d (ground arith)
  ]
]

-- No digit of the table lies between the two code points.
is_gap : ℕ → ℕ → List ℕ → Bool
is_gap low high [] = true
is_gap low high (z ∷ zs) = (ltb high z || leb (z + 10) low) && is_gap low high zs

digit_from-gap :
    (low high : ℕ) (zs : List ℕ) (c : ℕ)
    → is_gap low high zs ≡ true
    → low ≤ c
    → c ≤ high
    → digit_from zs c ≡ none
unfolding is_gap
digit_from-gap low high [] c g l h = refl
digit_from-gap low high (z ∷ zs) c g l h = ground (arith, digit_from-gap low high zs c)

space_place :
    (c : ℕ)
    → is_space c ≡ true
    → (c < 48)
      ⊎ ((0x85 ≤ c) × (c ≤ 0xA0))
      ⊎ ((0x1680 ≤ c) × (c ≤ 0x1680))
      ⊎ ((0x2000 ≤ c) × (c ≤ 0x3000))
unfolding is_space
space_place c h = ground arith

space_gap :
    (low high c : ℕ)
    → is_gap low high zeros ≡ true
    → 0x85 ≤ low
    → low ≤ c
    → c ≤ high
    → digit c ≡ none
unfolding digit
space_gap low high c g above l h = rw (digit_from-gap low high zeros c g l h) (ground arith)

low_none :
    (c : ℕ) (later : Option ℕ)
    → c < 48
    → (if leb 48 c && leb c 57 then some (c - 48) else if ltb c 128 then none else later) ≡ none
low_none c later h = ground arith

is_space-not_digit : (c : ℕ) → is_space c ≡ true → digit c ≡ none
unfolding digit is_gap
is_space-not_digit c h = elim (space_place c h) [
  | inl ascii ↦ low_none c (digit_from zeros c) ascii
  | inr (inl (l, k)) ↦ space_gap 0x85 0xA0 c refl (omega arith) l k
  | inr (inr (inl (l, k))) ↦ space_gap 0x1680 0x1680 c refl (omega arith) l k
  | inr (inr (inr (l, k))) ↦ space_gap 0x2000 0x3000 c refl (omega arith) l k
]

all_digits-spaceless : (s : String) → all is_digit s ≡ true → all (λ c. not (is_space c)) s ≡ true
all_digits-spaceless String.[] h = refl
all_digits-spaceless (String.◌∷◌ c s) h =
    ground (arith, all_digits-spaceless s, is_space-not_digit (code c))

pow_positive : (k : ℕ) → 0 < 10 ^ k
pow_positive zero = omega arith
pow_positive (suc k) = grind (arith, pow_positive k)

mul_mono : (a b p : ℕ) → a ≤ b → a * p ≤ b * p
mul_mono a b zero h = grind arith
mul_mono a b (suc p) h = grind (arith, mul_mono a b p h)

pow_suc : (k : ℕ) → 10 ^ (suc k) ≡ 10 * 10 ^ k
pow_suc k = grind arith

bigger :
    (value d k v : ℕ) → d ≤ 9 → v < suc (value * 10 + d) * 10 ^ k → v < suc value * 10 ^ (suc k)
bigger value d k v h lt =
    rw (pow_suc k)
      (grind (arith, mul_mono (suc (value * 10 + d)) (suc value * 10) (10 ^ k) (omega arith)))

-- Behind a first digit, and with at most k further ones.
read_digits_lem :
    (s : String) (value count k : ℕ)
    → all is_digit s ≡ true
    → length s ≤ k
    → count + k ≤ 4300
    → (v : ℕ) × (read_digits value count true s ≡ some v) × (v < suc value * 10 ^ k)
unfolding read_digits
read_digits_lem String.[] value count k h fits short =
    (value, ground arith, grind (arith, mul_mono 1 (10 ^ k) (suc value) (pow_positive k)))
read_digits_lem (String.◌∷◌ c s) value count zero h fits short = absurd (omega arith)
read_digits_lem (String.◌∷◌ c s) value count (suc k) h fits short =
    elim (Option-cases (digit (code c))) [
      | inl e ↦ absurd (ground arith)
      | inr (d, e) ↦
          let (v, read, lt) =
            read_digits_lem s (value * 10 + d) (suc count) k (ground arith) (omega arith)
              (omega arith) in
          (v, rw (e, read_digits) read, bigger value d k v (digit_small (code c) d e) lt)
    ]

first_step :
    (c : _) (s : String) (d : ℕ)
    → digit (code c) ≡ some d
    → read_digits 0 0 false (String.◌∷◌ c s) ≡ read_digits d 1 true s
unfolding read_digits
first_step c s d e = rw (e, read_digits) (ap (λ (n : ℕ). read_digits n 1 true s) (omega arith))

not_same : (c k d : ℕ) → digit k ≡ none → digit c ≡ some d → (c == k) ≡ false
not_same c k d none_k some_c = elim (Bool-cases (c == k)) [
  | inl e ↦
      let same : c ≡ k = ground arith in absurd (some_of (sym some_c ∙ (ap digit same ∙ none_k)))
  | inr e ↦ e
]
  where
    some_of : {d : ℕ} → some d ≡ none → ⊥
    some_of p = ground arith

minus_none : digit 45 ≡ none
unfolding digit
minus_none = refl

plus_none : digit 43 ≡ none
unfolding digit
plus_none = refl

read_signed-digit :
    (c : _) (s : String) (d v : ℕ)
    → digit (code c) ≡ some d
    → read_digits d 1 true s ≡ some v
    → read_signed (String.◌∷◌ c s) ≡ some (pos v)
unfolding read_signed
read_signed-digit c s d v e read =
    rw (not_same (code c) 45 d minus_none e, read_signed)
      (rw (not_same (code c) 43 d plus_none e) (rw (first_step c s d e) (rw read refl)))

-- A text of at least one and at most 4300 digits is read, as a number with as many digits.
read_signed_lem :
    (s : String) (k : ℕ)
    → all is_digit s ≡ true
    → 1 ≤ length s
    → length s ≤ k
    → k ≤ 4300
    → (n : ℕ) × (read_signed s ≡ some (pos n)) × (n < 10 ^ k)
read_signed_lem String.[] k h some_digit fits short = absurd (omega arith)
read_signed_lem (String.◌∷◌ c s) zero h some_digit fits short = absurd (omega arith)
read_signed_lem (String.◌∷◌ c s) (suc k) h some_digit fits short =
    elim (Option-cases (digit (code c))) [
      | inl e ↦ absurd (ground arith)
      | inr (d, e) ↦
          let (v, read, lt) = read_digits_lem s d 1 k (ground arith) (omega arith) (omega arith) in
          (
            v,
            read_signed-digit c s d v e read,
            grind (
              arith,
              pow_suc k,
              mul_mono (suc d) 10 (10 ^ k) (omega (arith, digit_small (code c) d e)),
            ),
          )
    ]

-- A text of at least one and at most k digits is read, as a number below 10^k.
pub parse_int_lem :
    (s : String) (k : ℕ)
    → all is_digit s ≡ true
    → 1 ≤ length s
    → length s ≤ k
    → k ≤ 4300
    → (n : ℕ) × (parse_int s ≡ some (pos n)) × (n < 10 ^ k)
unfolding parse_int
parse_int_lem s k h some_digit fits short =
    let (n, read, lt) = read_signed_lem s k h some_digit fits short in
    (n, rw (strip_lem s (all_digits-spaceless s h)) read, lt)
