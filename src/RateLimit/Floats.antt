-- ===== src/RateLimit/Floats.antt =====
-- What the rate limiter does with a Python float, and the laws of arithmetic that rounds.
use tessera_server.Common.{
  ℕ, ◌+◌, ◌/◌, ◌≡◌, ◌↔◌, refl, Bool, true, false, not, arith, ltb, if◌then◌else◌,
}
use tessera_server.Common.Int.{ℤ, pos, pos_part, neg_part, sub_ℕ, ◌+ℤ◌, ◌<ℤ◌, ◌≤ℤ◌, +ℤ_parts}

pub record Float (W : Type 0) : Type 0 where
  pub of_nat : ℕ → W
  pub zero : W
  pub one : W
  pub add : W → W → W
  pub sub : W → W → W
  pub div : W → W → W
  pub lt : W → W → Bool
  pub le : W → W → Bool

module _ {W : Type 0} (f : Float W) where
  -- min(a, b): the first, unless the second is smaller
  abbrev pub min_float : W → W → W
  min_float a b = if f.lt b a then b else a

  -- max(a, b): the first, unless the second is greater
  abbrev pub max_float : W → W → W
  max_float a b = if f.lt a b then b else a

-- Arithmetic that rounds to the nearest number, as IEEE 754 has it for finite numbers. Each has an
-- exact value, in units of which `one` has `unit`; comparisons are exact; a result has the sign of the
-- exact one; and where the exact one is not above `burst`, the result exceeds it by at most `err`.
-- `span` is what a time span is worth at one token in each `period`, in whole units.
pub record IsRounded {W : Type 0} (f : Float W) (period burst : W) (unit err : ℕ) (value : W → ℤ)
    (span : W → W → ℤ) : Type 0 where
  pub zero_value : value f.zero ≡ pos 0
  pub one_value : value f.one ≡ pos unit
  pub lt_value : (a b : W) → (f.lt a b ≡ true) ↔ (value a <ℤ value b)
  pub positive : f.le period f.zero ≡ false
  pub burst_nonneg : pos 0 ≤ℤ value burst
  pub add_nonneg : (a b : W) → pos 0 ≤ℤ value a → pos 0 ≤ℤ value b → pos 0 ≤ℤ value (f.add a b)
  pub add_value :
      (a b : W)
      → pos 0 ≤ℤ value a
      → pos 0 ≤ℤ value b
      → value a +ℤ value b ≤ℤ value burst
      → value (f.add a b) ≤ℤ (value a +ℤ value b) +ℤ pos err
  pub spend_nonneg : (a : W) → value f.one ≤ℤ value a → pos 0 ≤ℤ value (f.sub a f.one)
  pub spend_value :
      (a : W)
      → value f.one ≤ℤ value a
      → value a ≤ℤ value burst
      → value (f.sub a f.one) +ℤ value f.one ≤ℤ value a +ℤ pos err
  pub div_zero : value (f.div f.zero period) ≡ pos 0
  pub div_nonneg : (a : W) → pos 0 ≤ℤ value a → pos 0 ≤ℤ value (f.div a period)
  pub span_nonneg : (a b : W) → value a ≤ℤ value b → pos 0 ≤ℤ span a b
  pub span_value :
      (a b : W)
      → value a ≤ℤ value b
      → span a b ≤ℤ value burst
      → value (f.div (f.sub b a) period) ≤ℤ span a b +ℤ pos err
  pub span_split :
      (a b c : W) → value a ≤ℤ value b → value b ≤ℤ value c → span a b +ℤ span b c ≤ℤ span a c

-- Whole numbers of tokens and seconds.
abbrev lt_ℤ : ℤ → ℤ → Bool
lt_ℤ a b = ltb (pos_part a + neg_part b) (pos_part b + neg_part a)

abbrev pub whole_seconds : Float ℤ
whole_seconds = record {
  of_nat = pos;
  zero = pos 0;
  one = pos 1;
  add = λ a b. a +ℤ b;
  sub = λ a b. sub_ℕ (pos_part a + neg_part b) (pos_part b + neg_part a);
  div = λ a b. sub_ℕ (pos_part a / pos_part b) (neg_part a / pos_part b);
  lt = lt_ℤ;
  le = λ a b. not (lt_ℤ b a);
}

minus : ℤ → ℤ → ℤ
minus a b = sub_ℕ (pos_part a + neg_part b) (pos_part b + neg_part a)

minus_parts :
    (a b : ℤ)
    → pos_part (minus a b) + (pos_part b + neg_part a)
      ≡ neg_part (minus a b) + (pos_part a + neg_part b)
unfolding minus
minus_parts a b = ground arith

-- The same with a token in two seconds, whose half is rounded up: the laws can be met.
abbrev pub rounded_halves : Float ℤ
rounded_halves = record whole_seconds {
  div = λ a b. sub_ℕ ((pos_part a + pos_part b / 2) / pos_part b) (neg_part a / pos_part b);
}

-- The whole tokens of a time span.
abbrev pub whole_tokens : ℤ → ℤ → ℤ
whole_tokens a b = pos (pos_part (whole_seconds.sub b a) / 2)

minus_nonneg : (a b : ℤ) → a ≤ℤ b → neg_part (minus b a) ≡ 0
unfolding minus
minus_nonneg a b h = ground arith

pub rounded_halves-IsRounded :
    (burst : ℕ) → IsRounded rounded_halves (pos 2) (pos burst) 1 1 (λ a. a) whole_tokens
unfolding ◌+ℤ◌ minus
rounded_halves-IsRounded burst = record {
  zero_value = refl;
  one_value = refl;
  lt_value = λ a b. ground arith;
  positive = refl;
  burst_nonneg = omega arith;
  add_nonneg = λ a b h k. ground arith;
  add_value = λ a b h k l. ground arith;
  spend_nonneg = λ a h. ground arith;
  spend_value = λ a h k. ground arith;
  div_zero = refl;
  div_nonneg = λ a h. ground arith;
  span_nonneg = λ a b h. omega arith;
  span_value = λ a b h k. ground (arith, minus_nonneg a b h);
  span_split = λ a b c h k. omega (
    arith,
    minus_parts b a,
    minus_parts c b,
    minus_parts c a,
    minus_nonneg a b h,
    minus_nonneg b c k,
    +ℤ_parts (whole_tokens a b) (whole_tokens b c),
  );
}
