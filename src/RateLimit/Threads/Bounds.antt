-- ===== src/RateLimit/Threads/Bounds.antt =====
-- How many addresses the limiter of src/tessera/ratelimit.py tracks when several threads use it.
use tessera_server.Common.{
  ℕ, zero, suc, ◌+◌, ◌≤◌, ◌<◌, ◌≡◌, inl, inr, refl, String, List, [], ◌∷◌, arith, length,
}
use tessera_server.RateLimit.Threads.{
  Pc, idle, asked, crashed, missed, full, room, held, Turn, enter, go, arrive, turn, run_turns,
  rooms, rooms-length, Bounded, step-Bounded,
}

rooms-arrive :
    (ip : String) (pc : Pc) (pcs : List Pc) → rooms (arrive ip pc ∷ pcs) ≡ rooms (pc ∷ pcs)
rooms-arrive ip idle pcs = refl
rooms-arrive ip crashed pcs = refl
rooms-arrive ip (asked other) pcs = refl
rooms-arrive ip (missed other) pcs = refl
rooms-arrive ip (full other) pcs = refl
rooms-arrive ip (room other) pcs = refl
rooms-arrive ip (held other) pcs = refl

-- Another thread in front changes nothing.
Bounded-behind :
    (slots : ℕ) (pc : Pc) (pcs pcs' : List Pc) (table table' : List String)
    → Bounded slots pcs table (pcs', table')
    → Bounded slots (pc ∷ pcs) table (pc ∷ pcs', table')
Bounded-behind slots pc pcs pcs' table table' (inl h) = inl (omega (arith, h))
Bounded-behind slots pc pcs pcs' table table' (inr h) = inr h

turn-Bounded :
    (slots : ℕ) (t : Turn) (pcs : List Pc) (table : List String)
    → Bounded slots pcs table (turn slots t pcs table)
      × (length (turn slots t pcs table).0 ≡ length pcs)
unfolding turn
turn-Bounded slots t [] table = (inl (omega arith), refl)
turn-Bounded slots (enter zero ip) (pc ∷ pcs) table =
    (inl (omega (arith, rooms-arrive ip pc pcs)), refl)
turn-Bounded slots (go zero) (pc ∷ pcs) table = (step-Bounded slots pc pcs table, refl)
turn-Bounded slots (enter (suc i) ip) (pc ∷ pcs) table =
    let (bounded, same) = turn-Bounded slots (enter i ip) pcs table in
    (Bounded-behind slots pc pcs _ table _ bounded, omega arith)
turn-Bounded slots (go (suc i)) (pc ∷ pcs) table =
    let (bounded, same) = turn-Bounded slots (go i) pcs table in
    (Bounded-behind slots pc pcs _ table _ bounded, omega arith)

-- Entries and intentions to add one stay below the slots and the threads.
run_turns-Bounded :
    (slots : ℕ) (turns : List Turn) (pcs : List Pc) (table : List String)
    → length table + rooms pcs < slots + length pcs
    → length (run_turns slots turns pcs table).1 + rooms (run_turns slots turns pcs table).0
      < slots + length pcs
unfolding run_turns
run_turns-Bounded slots [] pcs table h = h
run_turns-Bounded slots (t ∷ turns) pcs table h =
    let (bounded, same) = turn-Bounded slots t pcs table in
    let few = rooms-length (turn slots t pcs table).0 in
    let next : length (turn slots t pcs table).1 + rooms (turn slots t pcs table).0
        < slots + length (turn slots t pcs table).0 =
      elim bounded [ inl fewer ↦ omega arith | inr (below, less) ↦ omega arith ] in
    let rest =
      run_turns-Bounded slots turns (turn slots t pcs table).0 (turn slots t pcs table).1 next in
    omega (arith, rest, same)

-- However the steps of the threads interleave, the limiter never tracks as many addresses as it has
-- slots and there are threads together: so never more than its slots with one thread, and with more
-- of them at most one more for each further thread.
pub threads_bounded :
    (slots : ℕ) (turns : List Turn) (pcs : List Pc) (table : List String)
    → rooms pcs ≡ 0
    → 0 < length pcs
    → length table ≤ slots
    → length (run_turns slots turns pcs table).1 < slots + length pcs
threads_bounded slots turns pcs table none_adding some_thread fits =
    omega (arith, run_turns-Bounded slots turns pcs table (omega arith))
