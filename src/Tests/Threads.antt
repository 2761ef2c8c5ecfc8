-- ===== src/Tests/Threads.antt =====
-- The theorems on the limiter under several threads, at two addresses and one slot.
use tessera_server.Common.{◌<◌, ◌≡◌, refl, String, [], ◌∷◌, arith, length}
use tessera_server.Common.Int.{ℤ, pos}
use tessera_server.RateLimit.{Limiter, new_limiter, allow}
use tessera_server.RateLimit.Floats.{whole_seconds}
use tessera_server.RateLimit.Slots.{IsValid}
use tessera_server.RateLimit.Threads.{idle, crashed, room, run_turns}
use tessera_server.RateLimit.Threads.Bounds.{threads_bounded}
use tessera_server.RateLimit.Threads.Race.{evicting_turns, eviction_crashes, overflowing_turns}
use tessera_server.RateLimit.Threads.Alone.{addresses, alone, alone-allow}

abbrev one_address : String
one_address = "10.0.0.1"

abbrev another_address : String
another_address = "10.0.0.2"

threads_bounded_example :
    length (run_turns 1 (overflowing_turns one_address another_address) (idle ∷ idle ∷ []) []).1 < 3
threads_bounded_example =
    threads_bounded 1 (overflowing_turns one_address another_address) (idle ∷ idle ∷ []) [] refl
      (omega arith) (omega arith)

eviction_crashes_example :
    run_turns 1 (evicting_turns one_address another_address) (idle ∷ idle ∷ []) (one_address ∷ [])
    ≡ (crashed ∷ room another_address ∷ [], [])
eviction_crashes_example =
    eviction_crashes 1 one_address another_address [] [] (omega arith) refl refl

abbrev one_slot : Limiter ℤ
one_slot = record (new_limiter whole_seconds 1 2 (pos 1) 3 (pos 1)) {
  buckets = (one_address, record { tokens = pos 1; last = pos 7 }) ∷ [];
}

one_slot-IsValid : IsValid one_slot
unfolding new_limiter
one_slot-IsValid = record {
  room = omega arith;
  bounded = omega arith;
  distinct = λ ip. ground arith;
}

alone-allow_example :
    run_turns one_slot.slots (alone another_address) (idle ∷ []) (one_address ∷ [])
    ≡ (idle ∷ [], addresses (allow whole_seconds one_slot another_address (pos 9)).1.buckets)
alone-allow_example = alone-allow whole_seconds one_slot another_address (pos 9) one_slot-IsValid
