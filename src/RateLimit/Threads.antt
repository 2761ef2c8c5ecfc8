-- ===== src/RateLimit/Threads.antt =====
-- TokenBucketLimiter.allow of src/tessera/ratelimit.py on several threads. The OrderedDict is the list
-- of its addresses, least recently used first; each operation on it is one step, and between two
-- steps of a thread others may take theirs, since nothing locks the limiter.
pub mod Bounds
pub mod Race
pub mod Alone
use tessera_server.Common.{
  ℕ, zero, suc, ◌+◌, ◌≤◌, ◌<◌, ◌≡◌, ◌⊎◌, inl, inr, refl, String, Bool, true, false, not, List, [],
  ◌∷◌, ◌++◌, arith, length, length-append, leb, str_eq, Bool-cases, eq_refl, if◌then◌else◌,
}
use tessera_server.Common.Table.{exists_where, delete_where, count_where}
use tessera_server.Common.Table.Counts.{length-delete}

-- Where a thread is in `allow` for an address: before the call or behind its use of the dict; before
-- `get`; before the test of the length; before popitem; before the assignment; before move_to_end;
-- or behind the KeyError of an operation on an entry that is not there.
pub data Pc : Type 0 where
  idle crashed : Pc
  asked missed full room held : String → Pc

abbrev pub is_tracked : String → List String → Bool
is_tracked ip = exists_where (λ entry. str_eq entry ip)

unfoldable pub step : ℕ → Pc → List String → Pc × List String
step slots idle table = (idle, table)
step slots crashed table = (crashed, table)
step slots (asked ip) table = (if is_tracked ip table then held ip else missed ip, table)
step slots (missed ip) table = (if leb slots (length table) then full ip else room ip, table)
step slots (full ip) [] = (crashed, [])
step slots (full ip) (oldest ∷ table) = (room ip, table)
step slots (room ip) table = (held ip, if is_tracked ip table then table else table ++ ip ∷ [])
step slots (held ip) table =
    if is_tracked ip table
    then (idle, delete_where (λ entry. str_eq entry ip) table ++ ip ∷ [])
    else (crashed, table)

-- What happens next: a request of an address comes to a thread, or a thread takes its next step.
pub data Turn : Type 0 where
  enter : ℕ → String → Turn
  go : ℕ → Turn

abbrev pub arrive : String → Pc → Pc
arrive ip idle = asked ip
arrive ip pc = pc

unfoldable pub turn : ℕ → Turn → List Pc → List String → List Pc × List String
turn slots t [] table = ([], table)
turn slots (enter zero ip) (pc ∷ pcs) table = (arrive ip pc ∷ pcs, table)
turn slots (go zero) (pc ∷ pcs) table =
    let (pc', table') = step slots pc table in (pc' ∷ pcs, table')
turn slots (enter (suc i) ip) (pc ∷ pcs) table =
    let (pcs', table') = turn slots (enter i ip) pcs table in (pc ∷ pcs', table')
turn slots (go (suc i)) (pc ∷ pcs) table =
    let (pcs', table') = turn slots (go i) pcs table in (pc ∷ pcs', table')

unfoldable pub run_turns : ℕ → List Turn → List Pc → List String → List Pc × List String
run_turns slots [] pcs table = (pcs, table)
run_turns slots (t ∷ turns) pcs table =
    let (pcs', table') = turn slots t pcs table in run_turns slots turns pcs' table'

-- The threads that are about to add an entry.
abbrev is_room : Pc → Bool
is_room (room ip) = true
is_room _ = false

abbrev pub rooms : List Pc → ℕ
rooms = count_where is_room

pub rooms-length : (pcs : List Pc) → rooms pcs ≤ length pcs
rooms-length [] = omega arith
rooms-length (pc ∷ pcs) = ground (arith, rooms-length pcs)

-- No more entries and intentions than before, or no more entries and fewer than the slots.
abbrev pub Bounded : ℕ → List Pc → List String → List Pc × List String → Type 0
Bounded slots pcs table (pcs', table') =
    (length table' + rooms pcs' ≤ length table + rooms pcs)
    ⊎ ((length table < slots) × (length table' ≤ length table))

counted_tracked :
    (ip : String) (table : List String)
    → is_tracked ip table ≡ true
    → 0 < count_where (λ entry. str_eq entry ip) table
counted_tracked ip [] h = absurd (ground arith)
counted_tracked ip (e ∷ table) h = ground (arith, counted_tracked ip table)

pub step-Bounded :
    (slots : ℕ) (pc : Pc) (pcs : List Pc) (table : List String)
    → Bounded slots (pc ∷ pcs) table ((step slots pc table).0 ∷ pcs, (step slots pc table).1)
unfolding step
step-Bounded slots idle pcs table = inl (omega arith)
step-Bounded slots crashed pcs table = inl (omega arith)
step-Bounded slots (asked ip) pcs table = elim (Bool-cases (is_tracked ip table)) [
  | inl e ↦ inl (rw e (omega arith))
  | inr e ↦ inl (rw e (omega arith))
]
step-Bounded slots (missed ip) pcs table = elim (Bool-cases (leb slots (length table))) [
  | inl e ↦ inl (rw e (omega arith))
  | inr e ↦ inr (ground arith, omega arith)
]
step-Bounded slots (full ip) pcs [] = inl (omega arith)
step-Bounded slots (full ip) pcs (oldest ∷ table) = inl (omega arith)
step-Bounded slots (room ip) pcs table = elim (Bool-cases (is_tracked ip table)) [
  | inl e ↦ inl (rw e (omega arith))
  | inr e ↦ inl (rw e (omega (arith, length-append table (ip ∷ []))))
]
step-Bounded slots (held ip) pcs table = elim (Bool-cases (is_tracked ip table)) [
  | inl e ↦ inl (
      rw e (
        omega (
          arith,
          length-append (delete_where (λ entry. str_eq entry ip) table) (ip ∷ []),
          length-delete (λ entry. str_eq entry ip) table,
          counted_tracked ip table e,
        )))
  | inr e ↦ inl (rw e (omega arith))
]
