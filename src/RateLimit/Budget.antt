-- ===== src/RateLimit/Budget.antt =====
-- How many requests src/tessera/ratelimit.py lets through, in arithmetic that rounds.
use tessera_server.Common.{
  ℕ, suc, length, ◌+◌, ◌*◌, ◌≡◌, refl, sym, ap, subst, ◌∙◌, String, Bool, true, false, List, [],
  ◌∷◌, arith, if◌then◌else◌, Bool-cases, inl, inr,
}
use tessera_server.Common.Int.{ℤ, pos, pos_part, neg_part, ◌+ℤ◌, ◌≤ℤ◌, +ℤ_parts}
use tessera_server.RateLimit.Floats.{Float, IsRounded}
use tessera_server.RateLimit.{Bucket, Limiter, new_limiter, refill, start, admit, charge, allow}
use tessera_server.RateLimit.Credit.{
  not_lt-le, refill_bound, refill_capped, refill_nonneg, refill_last,
}

start_none :
    {W : Type 0} (f : Float W) (l : Limiter W) (now : W)
    → l.global_started ≡ true
    → start f l now ≡ l
unfolding start
start_none f l now s = ground arith

bill :
    (unit count : ℕ) (ok : Bool)
    → unit * ((if ok then 1 else 0) + count) ≡ (if ok then unit else 0) + unit * count
bill unit count true = grind arith
bill unit count false = grind arith

roundings : (err n : ℕ) → 3 * err * suc n ≡ 3 * err + 3 * err * n
roundings err n = grind arith

module _ {W : Type 0} (f : Float W) where
  -- The requests of a list that are let through, one after the other, and the limiter after them.
  unfoldable pub allow_all : List (String × W) → Limiter W → ℕ × Limiter W
  allow_all [] l = (0, l)
  allow_all ((ip, now) ∷ rest) l =
      let (ok, l') = allow f l ip now in
      let (count, l'') = allow_all rest l' in ((if ok then 1 else 0) + count, l'')

  module _ (unit : ℕ) (value : W → ℤ) where
    -- The times do not go back, from `from` on, and stay below `until`.
    abbrev pub InOrder : W → List (String × W) → W → Type 0
    InOrder from [] until = value from ≤ℤ value until
    InOrder from ((ip, now) ∷ rest) until = (value from ≤ℤ value now) × InOrder now rest until

    pub InOrder-earlier :
        (a b : W) (requests : List (String × W)) (until : W)
        → value a ≤ℤ value b
        → InOrder b requests until
        → InOrder a requests until
    InOrder-earlier a b [] until h o = omega arith
    InOrder-earlier a b ((ip, now) ∷ rest) until h o = (omega (arith, o.0), o.1)

    pub InOrder-until :
        (a : W) (requests : List (String × W)) (until : W)
        → InOrder a requests until
        → value a ≤ℤ value until
    InOrder-until a [] until o = o
    InOrder-until a ((ip, now) ∷ rest) until o =
        omega (arith, InOrder-until now rest until o.1, o.0)

    module _ (period burst : W) (err : ℕ) (span : W → W → ℤ)
        (r : IsRounded f period burst unit err value span) where
      -- What one request leaves of the global bucket: its tokens are not negative, its time is the
      -- old one or the request's, and a token spent was there or has been credited, but for three
      -- roundings.
      abbrev Stepped : Limiter W → W → Bool × Limiter W → Type 0
      Stepped l now (ok, l') =
          (l'.global_started ≡ true)
          × (l'.global_refill_secs ≡ l.global_refill_secs)
          × (l'.global_burst ≡ l.global_burst)
          × (pos 0 ≤ℤ value l'.global_bucket.tokens)
          × (value l.global_bucket.last ≤ℤ value l'.global_bucket.last)
          × (value l'.global_bucket.last ≤ℤ value now)
          × (pos (if ok then unit else 0) +ℤ value l'.global_bucket.tokens
              ≤ℤ (value l.global_bucket.tokens +ℤ span l.global_bucket.last l'.global_bucket.last)
                +ℤ pos (3 * err))

      module _ (l : Limiter W) (ip : String) (now : W) where
        -- The global bucket, refilled, has at most the burst, and no more than what there was and
        -- the time is worth.
        abbrev IsRefilled : Bucket W → Type 0
        IsRefilled whole =
            (whole.last ≡ now)
            × (pos 0 ≤ℤ value whole.tokens)
            × (value whole.tokens ≤ℤ value burst)
            × (value whole.tokens
                ≤ℤ (value l.global_bucket.tokens +ℤ span l.global_bucket.last now) +ℤ pos (2 * err))

        spent_bound :
            (whole : Bucket W)
            → IsRefilled whole
            → f.lt whole.tokens f.one ≡ false
            → pos unit +ℤ value (f.sub whole.tokens f.one)
              ≤ℤ (value l.global_bucket.tokens +ℤ span l.global_bucket.last now) +ℤ pos (3 * err)
        spent_bound whole (at, n, capped, b) full =
            let enough = not_lt-le f period burst unit err value span r whole.tokens f.one full in
            let spent = r.spend_value whole.tokens enough capped in
            let u = r.one_value in
            let gained = value l.global_bucket.tokens +ℤ span l.global_bucket.last now in
            omega (
              arith,
              b,
              spent,
              ap pos_part u,
              ap neg_part u,
              +ℤ_parts gained (pos (2 * err)),
              +ℤ_parts gained (pos (3 * err)),
              +ℤ_parts (value (f.sub whole.tokens f.one)) (value f.one),
              +ℤ_parts (value whole.tokens) (pos err),
              +ℤ_parts (pos unit) (value (f.sub whole.tokens f.one)),
            )

        kept_bound :
            value l.global_bucket.last ≤ℤ value now
            → pos 0 +ℤ value l.global_bucket.tokens
              ≤ℤ (value l.global_bucket.tokens +ℤ span l.global_bucket.last l.global_bucket.last)
                +ℤ pos (3 * err)
        kept_bound h =
            let same = span l.global_bucket.last l.global_bucket.last in
            let none = r.span_nonneg l.global_bucket.last l.global_bucket.last (omega arith) in
            omega (
              arith,
              none,
              +ℤ_parts (pos 0) (value l.global_bucket.tokens),
              +ℤ_parts (value l.global_bucket.tokens) same,
              +ℤ_parts (value l.global_bucket.tokens +ℤ same) (pos (3 * err)),
            )

        refilled_bound :
            (whole : Bucket W)
            → IsRefilled whole
            → pos 0 +ℤ value whole.tokens
              ≤ℤ (value l.global_bucket.tokens +ℤ span l.global_bucket.last now) +ℤ pos (3 * err)
        refilled_bound whole (at, n, capped, b) =
            let gained = value l.global_bucket.tokens +ℤ span l.global_bucket.last now in
            omega (
              arith,
              b,
              +ℤ_parts (pos 0) (value whole.tokens),
              +ℤ_parts gained (pos (2 * err)),
              +ℤ_parts gained (pos (3 * err)),
            )

        admit-Stepped :
            (bucket whole : Bucket W) (others : List (String × Bucket W))
            → l.global_started ≡ true
            → pos 0 ≤ℤ value l.global_bucket.tokens
            → value l.global_bucket.last ≤ℤ value now
            → IsRefilled whole
            → Stepped l now (admit f l ip bucket whole others)
        unfolding admit
        admit-Stepped bucket whole others s t h w = elim (Bool-cases (f.lt bucket.tokens f.one)) [
          | inl low ↦ rw (low, admit) (s, refl, refl, t, omega arith, h, kept_bound h)
          | inr high ↦ elim (Bool-cases (f.lt whole.tokens f.one)) [
            | inl dry ↦
                rw (high, dry, admit)
                  (
                    s,
                    refl,
                    refl,
                    w.1,
                    rw w.0 h,
                    rw w.0 (omega arith),
                    rw w.0 (refilled_bound whole w),
                  )
            | inr full ↦
                rw (high, full, admit)
                  (
                    s,
                    refl,
                    refl,
                    r.spend_nonneg whole.tokens
                        (not_lt-le f period burst unit err value span r whole.tokens f.one full),
                    rw w.0 h,
                    rw w.0 (omega arith),
                    rw w.0 (spent_bound whole w full),
                  )
          ]
        ]

        step-Stepped :
            l.global_started ≡ true
            → l.global_refill_secs ≡ period
            → pos 0 ≤ℤ value l.global_bucket.tokens
            → l.global_burst ≡ burst
            → value l.global_bucket.last ≤ℤ value now
            → Stepped l now (allow f l ip now)
        unfolding allow charge
        step-Stepped s p t b h =
            let bucket = l.global_bucket in
            let refilled : IsRefilled (refill f bucket now burst period) = (
              refill_last f period burst unit err value span r bucket now period,
              refill_nonneg f period burst unit err value span r bucket now t,
              refill_capped f period burst unit err value span r bucket now,
              refill_bound f period burst unit err value span r bucket now t h,
            ) in
            subst (λ (w : Limiter W). Stepped l now (charge f w ip now))
              (sym (start_none f l now s)) (admit-Stepped _ _ _ s t h (rw (p, b) refilled))

      -- The requests let through cost no more than the tokens that the global bucket had, and what
      -- the time since its last refill is worth, but for three roundings of each request.
      allow_all_bound :
          (requests : List (String × W)) (until : W) (l : Limiter W)
          → l.global_started ≡ true
          → l.global_refill_secs ≡ period
          → pos 0 ≤ℤ value l.global_bucket.tokens
          → l.global_burst ≡ burst
          → InOrder l.global_bucket.last requests until
          → pos (unit * (allow_all requests l).0)
            ≤ℤ (value l.global_bucket.tokens +ℤ span l.global_bucket.last until)
              +ℤ pos (3 * err * length requests)
      unfolding allow_all
      allow_all_bound [] until l s p t b o =
          let tokens = value l.global_bucket.tokens in
          let worth = span l.global_bucket.last until in
          omega (
            arith,
            t,
            r.span_nonneg l.global_bucket.last until o,
            +ℤ_parts tokens worth,
            +ℤ_parts (tokens +ℤ worth) (pos (3 * err * 0)),
          )
      allow_all_bound ((ip, now) ∷ rest) until l s p t b o =
          let (s', p', b', t', h, n, spent) = step-Stepped l ip now s p t b o.0 in
          let l' = (allow f l ip now).1 in
          let ordered = InOrder-earlier l'.global_bucket.last now rest until n o.1 in
          let later = allow_all_bound rest until l' s' (p' ∙ p) t' (b' ∙ b) ordered in
          let ok = (allow f l ip now).0 in
          let before = value l.global_bucket.tokens in
          let after = value l'.global_bucket.tokens in
          let first = span l.global_bucket.last l'.global_bucket.last in
          let second = span l'.global_bucket.last until in
          let all = span l.global_bucket.last until in
          omega (
            arith,
            bill unit (allow_all rest l').0 ok,
            roundings err (length rest),
            spent,
            later,
            r.span_split l.global_bucket.last l'.global_bucket.last until h
                (InOrder-until l'.global_bucket.last rest until ordered),
            +ℤ_parts before all,
            +ℤ_parts (before +ℤ all) (pos (3 * err * suc (length rest))),
            +ℤ_parts before first,
            +ℤ_parts (before +ℤ first) (pos (3 * err)),
            +ℤ_parts after second,
            +ℤ_parts (after +ℤ second) (pos (3 * err * length rest)),
            +ℤ_parts first second,
            +ℤ_parts (pos (if ok then unit else 0)) after,
          )

    module _ (period : W) (global_burst err : ℕ) (span : W → W → ℤ)
        (r : IsRounded f period (f.of_nat global_burst) unit err value span) where
      -- Of the requests that a new limiter is asked about, one after the other in the order of their
      -- times, no more are let through, from all addresses together, than the global burst and what
      -- the time from the first request on is worth in refills, but for three roundings of each
      -- request.
      pub new_limiter_bound :
          (slots burst : ℕ) (refill_secs : W) (ip : String) (now : W) (rest : List (String × W))
          (until : W)
          → InOrder now rest until
          → pos (
              unit
              * (allow_all
                  ((ip, now) ∷ rest)
                  (new_limiter f slots burst refill_secs global_burst period)).0)
            ≤ℤ (value (f.of_nat global_burst) +ℤ span now until)
              +ℤ pos (3 * err * length ((ip, now) ∷ rest))
      unfolding new_limiter allow_all allow start
      new_limiter_bound slots burst refill_secs ip now rest until o =
          let l = start f (new_limiter f slots burst refill_secs global_burst period) now in
          allow_all_bound period (f.of_nat global_burst) err span r ((ip, now) ∷ rest) until l refl
            refl r.burst_nonneg refl (omega arith, o)
