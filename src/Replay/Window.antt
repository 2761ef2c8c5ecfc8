-- ===== src/Replay/Window.antt =====
-- How long the nonce table of src/tessera/replay.py remembers a pair.
use tessera_server.Common.{
  ℕ, ◌+◌, ◌≤◌, ◌<◌, String, ◌≡◌, refl, Bool, true, false, ◌&&◌, List, [], ◌∷◌, ◌++◌, arith, leb,
  eq_refl, Bool-cases, inl, inr, All,
}
use tessera_server.Common.Table.{delete_where, exists_where}
use tessera_server.Replay.{Nonce, is_nonce, check_and_record}

-- Is the pair on record until `until` at least?
abbrev pub remembers : String → String → ℕ → List Nonce → Bool
remembers key nonce until = exists_where (λ r. is_nonce key nonce r && leb until r.expires_at)

module _ (k n : String) (e now : ℕ) (soon : now < e) where
  remembers-delete :
      (rows : List Nonce)
      → remembers k n e rows ≡ true
      → remembers k n e (delete_where (λ r. leb r.expires_at now) rows) ≡ true
  remembers-delete [] h = h
  remembers-delete (r ∷ rows) h = ground (arith, remembers-delete rows)

  remembers-exists :
      (rows : List Nonce) → remembers k n e rows ≡ true → exists_where (is_nonce k n) rows ≡ true
  remembers-exists [] h = h
  remembers-exists (r ∷ rows) h = ground (arith, remembers-exists rows)

remembers-append :
    (k n : String) (e : ℕ) (rows : List Nonce) (r : Nonce)
    → remembers k n e rows ≡ true
    → remembers k n e (rows ++ r ∷ []) ≡ true
remembers-append k n e [] r h = ground arith
remembers-append k n e (x ∷ rows) r h = ground (arith, remembers-append k n e rows r)

remembers-append_self :
    (k n : String) (e : ℕ) (rows : List Nonce)
    → remembers k n e (rows ++ (record { key = k; nonce = n; expires_at = e }) ∷ []) ≡ true
remembers-append_self k n e [] = ground (arith, eq_refl k, eq_refl n)
remembers-append_self k n e (x ∷ rows) = ground (arith, remembers-append_self k n e rows)

-- A pair on record is refused for as long as it is remembered.
pub remembered_refused :
    (k n : String) (e now window : ℕ) (rows : List Nonce)
    → now < e
    → remembers k n e rows ≡ true
    → (check_and_record k n now window rows).0 ≡ false
unfolding check_and_record
remembered_refused k n e now window rows soon h = rw (
    remembers-exists k n e now soon (delete_where (λ r. leb r.expires_at now) rows)
      (remembers-delete k n e now soon rows h))

-- No later check makes the table forget a pair before its time.
pub check-remembers :
    (k n k' n' : String) (e now window : ℕ) (rows : List Nonce)
    → now < e
    → remembers k n e rows ≡ true
    → remembers k n e (check_and_record k' n' now window rows).1 ≡ true
unfolding check_and_record
check-remembers k n k' n' e now window rows soon h =
    let live = delete_where (λ r. leb r.expires_at now) rows in
    let kept = remembers-delete k n e now soon rows h in
    elim (Bool-cases (exists_where (is_nonce k' n') live)) [
      | inl used ↦ rw used kept
      | inr fresh ↦ rw fresh (remembers-append k n e live _ kept)
    ]

-- A fresh pair is on record until the window closes.
pub fresh_remembered :
    (k n : String) (now window : ℕ) (rows : List Nonce)
    → (check_and_record k n now window rows).0 ≡ true
    → remembers k n (now + window) (check_and_record k n now window rows).1 ≡ true
unfolding check_and_record
fresh_remembered k n now window rows h =
    let live = delete_where (λ r. leb r.expires_at now) rows in
    elim (Bool-cases (exists_where (is_nonce k n) live)) [
      | inl used ↦ ground arith
      | inr fresh ↦ rw fresh (remembers-append_self k n (now + window) live)
    ]

-- No row of the pair expires later than `e`.
abbrev GoneBy : String → String → ℕ → List Nonce → Type 0
GoneBy k n e = All (λ r. is_nonce k n r ≡ true → r.expires_at ≤ e)

absent-GoneBy :
    (k n : String) (e : ℕ) (rows : List Nonce)
    → exists_where (is_nonce k n) rows ≡ false
    → GoneBy k n e (rows ++ (record { key = k; nonce = n; expires_at = e }) ∷ [])
absent-GoneBy k n e [] h = (λ _. omega arith, tt)
absent-GoneBy k n e (r ∷ rows) h = (λ q. ground arith, absent-GoneBy k n e rows (ground arith))

GoneBy-delete :
    (k n : String) (e : ℕ) (rows : List Nonce)
    → GoneBy k n e rows
    → exists_where (is_nonce k n) (delete_where (λ r. leb r.expires_at e) rows) ≡ false
GoneBy-delete k n e [] h = refl
GoneBy-delete k n e (r ∷ rows) h = ground (arith, GoneBy-delete k n e rows h.1, h.0)

-- A pair that was fresh once is fresh again at the moment its row expires.
pub fresh_again :
    (k n : String) (now window window' : ℕ) (rows : List Nonce)
    → (check_and_record k n now window rows).0 ≡ true
    → (check_and_record k n (now + window) window' (check_and_record k n now window rows).1).0
      ≡ true
unfolding check_and_record
fresh_again k n now window window' rows h =
    let live = delete_where (λ r. leb r.expires_at now) rows in
    elim (Bool-cases (exists_where (is_nonce k n) live)) [
      | inl used ↦ ground arith
      | inr fresh ↦
          rw (
            fresh,
            GoneBy-delete k n (now + window) _ (absent-GoneBy k n (now + window) live fresh),
          )
    ]
