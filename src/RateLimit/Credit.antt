-- ===== src/RateLimit/Credit.antt =====
-- What _refill of src/tessera/ratelimit.py credits, in arithmetic that rounds.
use tessera_server.Common.{
  ℕ, ◌+◌, ◌*◌, ◌≡◌, ◌⊎◌, refl, ap, Bool, true, false, arith, ltb, if◌then◌else◌, Bool-cases, inl,
  inr,
}
use tessera_server.Common.Int.{ℤ, pos, pos_part, neg_part, ◌+ℤ◌, ◌≤ℤ◌, +ℤ_parts}
use tessera_server.RateLimit.Floats.{Float, IsRounded, max_float, min_float}
use tessera_server.RateLimit.{Bucket, refill}

le_total : (a b : ℤ) → (a ≤ℤ b) ⊎ (b ≤ℤ a)
le_total a b = elim (Bool-cases (ltb (pos_part b + neg_part a) (pos_part a + neg_part b))) [
  | inl e ↦ inr (ground arith)
  | inr e ↦ inl (ground arith)
]

module _ {W : Type 0} (f : Float W) (period burst : W) (unit err : ℕ) (value : W → ℤ)
    (span : W → W → ℤ) (r : IsRounded f period burst unit err value span) where
  pub not_lt-le : (a b : W) → f.lt a b ≡ false → value b ≤ℤ value a
  not_lt-le a b e = ground (arith, (r.lt_value a b).1)

  min-le_left : (b : W) → value (min_float f burst b) ≤ℤ value burst
  min-le_left b = elim (Bool-cases (f.lt b burst)) [
    | inl e ↦ rw e (ground (arith, (r.lt_value b burst).0))
    | inr e ↦ rw e (omega arith)
  ]

  min-le_right : (b : W) → value (min_float f burst b) ≤ℤ value b
  min-le_right b = elim (Bool-cases (f.lt b burst)) [
    | inl e ↦ rw e (omega arith)
    | inr e ↦ rw e (not_lt-le b burst e)
  ]

  min_nonneg : (b : W) → pos 0 ≤ℤ value b → pos 0 ≤ℤ value (min_float f burst b)
  min_nonneg b h = elim (Bool-cases (f.lt b burst)) [ inl e ↦ rw e h | inr e ↦ rw e r.burst_nonneg ]

  -- What `_refill` credits for a time span.
  abbrev credit : W → W → W
  credit a b = f.div (max_float f f.zero (f.sub b a)) period

  credit_nonneg : (a b : W) → pos 0 ≤ℤ value (credit a b)
  credit_nonneg a b = from_test (f.lt f.zero (f.sub b a)) refl
    where
      from_test :
          (ahead : Bool)
          → f.lt f.zero (f.sub b a) ≡ ahead
          → pos 0 ≤ℤ value (f.div (if ahead then f.sub b a else f.zero) period)
      from_test true e =
          let z = r.zero_value in
          r.div_nonneg (f.sub b a)
            (ground (arith, (r.lt_value f.zero (f.sub b a)).0, ap pos_part z, ap neg_part z))
      from_test false e = rw r.div_zero (omega arith)

  credit_bound :
      (a b : W)
      → value a ≤ℤ value b
      → span a b ≤ℤ value burst
      → value (credit a b) ≤ℤ span a b +ℤ pos err
  credit_bound a b h k = from_test (f.lt f.zero (f.sub b a))
    where
      from_test :
          (ahead : Bool)
          → value (f.div (if ahead then f.sub b a else f.zero) period) ≤ℤ span a b +ℤ pos err
      from_test true = r.span_value a b h k
      from_test false =
          rw r.div_zero (omega (arith, r.span_nonneg a b h, +ℤ_parts (span a b) (pos err)))

  refill_tokens :
      (bucket : Bucket W) (now : W)
      → (refill f bucket now burst period).tokens
        ≡ min_float f burst (f.add bucket.tokens (credit bucket.last now))
  unfolding refill
  refill_tokens bucket now = rw r.positive refl

  -- The tokens after a refill: at most the burst, and at most those before and what the time is
  -- worth, but for two roundings.
  pub refill_bound :
      (bucket : Bucket W) (now : W)
      → pos 0 ≤ℤ value bucket.tokens
      → value bucket.last ≤ℤ value now
      → value (refill f bucket now burst period).tokens
        ≤ℤ (value bucket.tokens +ℤ span bucket.last now) +ℤ pos (2 * err)
  refill_bound bucket now t h =
      let x = credit bucket.last now in
      let sum = f.add bucket.tokens x in
      let worth = span bucket.last now in
      let gained = r.span_nonneg bucket.last now h in
      let left = min-le_left sum in
      let right = min-le_right sum in
      let s0 = +ℤ_parts (value bucket.tokens) worth in
      let s1 = +ℤ_parts (value bucket.tokens +ℤ worth) (pos (2 * err)) in
      rw (refill_tokens bucket now) (elim (le_total worth (value burst)) [
        | inr long ↦ omega (arith, long, gained, left, t, s0, s1)
        | inl short ↦
            let bound = credit_bound bucket.last now h short in
            elim (le_total (value bucket.tokens +ℤ value x) (value burst)) [
              | inr full ↦ omega (
                arith,
                full,
                bound,
                left,
                s0,
                s1,
                +ℤ_parts (value bucket.tokens) (value x),
                +ℤ_parts worth (pos err),
              )
              | inl room ↦
                  let added = r.add_value bucket.tokens x t (credit_nonneg bucket.last now) room in
                  omega (
                    arith,
                    added,
                    bound,
                    right,
                    s0,
                    s1,
                    +ℤ_parts (value bucket.tokens) (value x),
                    +ℤ_parts (value bucket.tokens +ℤ value x) (pos err),
                    +ℤ_parts worth (pos err),
                  )
            ]
      ])

  pub refill_capped :
      (bucket : Bucket W) (now : W) → value (refill f bucket now burst period).tokens ≤ℤ value burst
  refill_capped bucket now = rw (refill_tokens bucket now) (min-le_left _)

  pub refill_nonneg :
      (bucket : Bucket W) (now : W)
      → pos 0 ≤ℤ value bucket.tokens
      → pos 0 ≤ℤ value (refill f bucket now burst period).tokens
  refill_nonneg bucket now t = rw (refill_tokens bucket now) (
      min_nonneg _
        (r.add_nonneg bucket.tokens (credit bucket.last now) t (credit_nonneg bucket.last now)))

  pub refill_last : (bucket : Bucket W) (now secs : W) → (refill f bucket now burst secs).last ≡ now
  unfolding refill
  refill_last bucket now secs = refl
