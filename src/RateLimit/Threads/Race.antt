-- ===== src/RateLimit/Threads/Race.antt =====
-- What two threads can do to each other in the limiter of src/tessera/ratelimit.py.
use tessera_server.Common.{
  ℕ, suc, ◌≤◌, ◌≡◌, refl, String, false, List, [], ◌∷◌, ◌++◌, arith, length, length-append, leb,
  str_eq, eq_refl, le→leb,
}
use tessera_server.RateLimit.Threads.{
  Pc, idle, crashed, room, Turn, enter, go, step, turn, run_turns, is_tracked,
}

-- A request of an address that is tracked, and a request of a new one that evicts it between the
-- two uses of the dict by the first.
abbrev pub evicting_turns : String → String → List Turn
evicting_turns ip other = enter 0 ip ∷ go 0 ∷ enter 1 other ∷ go 1 ∷ go 1 ∷ go 1 ∷ go 0 ∷ []

-- If the table is full and the least recently used address sends a request, a request of a new
-- address on a second thread can make the first thread's move_to_end raise KeyError.
pub eviction_crashes :
    (slots : ℕ) (ip other : String) (table : List String) (pcs : List Pc)
    → slots ≤ suc (length table)
    → is_tracked ip table ≡ false
    → is_tracked other (ip ∷ table) ≡ false
    → run_turns slots (evicting_turns ip other) (idle ∷ idle ∷ pcs) (ip ∷ table)
      ≡ (crashed ∷ room other ∷ pcs, table)
unfolding run_turns turn step
eviction_crashes slots ip other table pcs full_table once new =
    let here = eq_refl ip in
    let many = le→leb slots (suc (length table)) full_table in
    rw (here, new) (rw many (rw once refl))

-- Requests of two new addresses, each of which finds the last slot free before the other takes it.
abbrev pub overflowing_turns : String → String → List Turn
overflowing_turns a b = enter 0 a ∷ enter 1 b ∷ go 0 ∷ go 1 ∷ go 0 ∷ go 1 ∷ go 0 ∷ go 1 ∷ []

not_tracked-append :
    (ip other : String) (table : List String)
    → is_tracked ip table ≡ false
    → str_eq other ip ≡ false
    → is_tracked ip (table ++ other ∷ []) ≡ false
not_tracked-append ip other [] h k = ground arith
not_tracked-append ip other (e ∷ table) h k = ground (arith, not_tracked-append ip other table)

-- With one slot left, two new addresses on two threads can leave one entry more than there are slots.
pub overflow :
    (slots : ℕ) (a b : String) (table : List String) (pcs : List Pc)
    → suc (length table) ≡ slots
    → is_tracked a table ≡ false
    → is_tracked b table ≡ false
    → str_eq a b ≡ false
    → length (run_turns slots (overflowing_turns a b) (idle ∷ idle ∷ pcs) table).1 ≡ suc slots
unfolding run_turns turn step
overflow slots a b table pcs one_left new_a new_b apart =
    let room_left : leb slots (length table) ≡ false = ground arith in
    rw (new_a, new_b)
      (rw room_left (
        rw (new_a, not_tracked-append b a table new_b apart)
          (omega (arith, length-append (table ++ a ∷ []) (b ∷ []), length-append table (a ∷ [])))))
