-- ===== src/Tests/Limits.antt =====
-- The theorems on the rate limiter, with whole tokens and seconds.
use tessera_server.Common.{
  ◌==◌, if◌then◌else◌, ◌*◌, ◌≡◌, ◌⊎◌, ap, String, true, none, some, [], ◌∷◌, arith, length, str_eq,
}
use tessera_server.Common.Int.{ℤ, pos, ◌≤ℤ◌, ◌+ℤ◌}
use tessera_server.RateLimit.Floats.{
  whole_seconds, rounded_halves, whole_tokens, rounded_halves-IsRounded,
}
use tessera_server.RateLimit.{Limiter, new_limiter, allow}
use tessera_server.RateLimit.Slots.{
  IsValid, bucket_of, oldest, called, called-IsValid, allow_isolated,
}
use tessera_server.RateLimit.Budget.{allow_all, new_limiter_bound}

abbrev here : String
here = "10.0.0.1"

abbrev there : String
there = "10.0.0.2"

-- One slot, taken, with one token left.
abbrev full_limiter : Limiter ℤ
full_limiter = record {
  slots = 1;
  burst = pos 2;
  refill_secs = pos 1;
  global_burst = pos 3;
  global_refill_secs = pos 1;
  buckets = (here, record { tokens = pos 1; last = pos 100 }) ∷ [];
  global_bucket = record { tokens = pos 2; last = pos 100 };
  global_started = true;
}

full_limiter-IsValid : IsValid full_limiter
full_limiter-IsValid = record {
  room = omega arith;
  bounded = omega arith;
  distinct = λ other. ground arith;
}

-- No slots, so one: the second address evicts the first.
called-IsValid_example :
    IsValid (
      called whole_seconds
        ((here, pos 100) ∷ (there, pos 101) ∷ [])
        (new_limiter whole_seconds 0 2 (pos 1) 3 (pos 1)))
    × ((called whole_seconds
          ((here, pos 100) ∷ (there, pos 101) ∷ [])
          (new_limiter whole_seconds 0 2 (pos 1) 3 (pos 1))).slots
        ≡ (if 0 == 0 then 1 else 0))
called-IsValid_example =
    called-IsValid whole_seconds 0 2 3 (pos 1) (pos 1) ((here, pos 100) ∷ (there, pos 101) ∷ [])

allow_isolated_example :
    (bucket_of (allow whole_seconds full_limiter there (pos 101)).1 here
      ≡ some (record { tokens = pos 1; last = pos 100 }))
    ⊎ ((oldest full_limiter ≡ some here)
        × (bucket_of full_limiter there ≡ none)
        × (length full_limiter.buckets ≡ full_limiter.slots)
        × (bucket_of (allow whole_seconds full_limiter there (pos 101)).1 here ≡ none))
allow_isolated_example =
    allow_isolated whole_seconds full_limiter there (pos 101) here full_limiter-IsValid
      (λ p. ground (arith, ap (λ (s : String). str_eq s there) p))

-- A token in two seconds, and three roundings of one unit for each of two requests.
new_limiter_bound_example :
    pos (
      1
      * (allow_all rounded_halves
          ((here, pos 100) ∷ (there, pos 103) ∷ [])
          (new_limiter rounded_halves 4 2 (pos 2) 3 (pos 2))).0)
    ≤ℤ (pos 3 +ℤ pos 2) +ℤ pos (3 * 1 * 2)
new_limiter_bound_example =
    new_limiter_bound rounded_halves 1 (λ a. a) (pos 2) 3 1 whole_tokens
      (rounded_halves-IsRounded 3) 4 2 (pos 2) here (pos 100) ((there, pos 103) ∷ []) (pos 105)
      (omega arith, omega arith)
