-- ===== src/Signing/Replayed.antt =====
-- Which captured requests of src/tessera/signing.py a second delivery executes again.
use tessera_server.Common.{
  ℕ, ◌+◌, ◌≤◌, ◌<◌, String, ◌≡◌, ◌⊎◌, inl, inr, true, false, List, [], ◌∷◌, arith, ok, raise, ltb,
  Bool-cases, All,
}
use tessera_server.Common.Int.{ℤ, abs_diff, pos_part, neg_part}
use tessera_server.Config.{TesseraConfig}
use tessera_server.Hydro.{HydroLib}
use tessera_server.Replay.{Nonce}
use tessera_server.Replay.Window.{
  remembers, remembered_refused, check-remembers, fresh_remembered, fresh_again,
}
use tessera_server.Signing.{
  SignedIdentity, SignedRequest, SignatureHeaders, parse_signature_headers, verify_signed_request,
  stale, replayed,
}
use tessera_server.Signing.Accepted.{
  verify-rows, verify_used, verify_fresh, verify_stale, verify-ok_parsed,
}

-- A timestamp before `now` leaves the window before the row of `now` expires.
abs_diff_bound :
    (later now w : ℕ) (t : ℤ)
    → pos_part t < now + neg_part t
    → ltb w (abs_diff later t) ≡ false
    → later < now + w
abs_diff_bound later now w t before in_time = ground arith

abs_diff_later :
    (now w : ℕ) (t : ℤ)
    → now + neg_part t ≤ pos_part t
    → abs_diff now t ≤ w
    → abs_diff (now + w) t ≤ w
abs_diff_later now w t ahead near = ground arith

All-lt :
    {A : Type 0} (b e : ℕ) (xs : List (A × ℕ))
    → b < e
    → All (λ x. x.1 ≤ b) xs
    → All (λ x. x.1 < e) xs
All-lt b e [] h a = tt
All-lt b e (x ∷ xs) h a = (omega arith, All-lt b e xs h a.1)

module _ (lib : HydroLib) (cfg : TesseraConfig) where
  -- The nonce table after other requests, each verified at its own time.
  abbrev pub verify_all : List (SignedRequest × ℕ) → List Nonce → List Nonce
  verify_all [] rows = rows
  verify_all ((req, now) ∷ rest) rows =
      verify_all rest (verify_signed_request lib cfg req now rows).1

  verify-remembers :
      (k n : String) (e : ℕ) (req : SignedRequest) (now : ℕ) (rows : List Nonce)
      → now < e
      → remembers k n e rows ≡ true
      → remembers k n e (verify_signed_request lib cfg req now rows).1 ≡ true
  verify-remembers k n e req now rows soon h = elim (verify-rows lib cfg req now rows) [
    | inl same ↦ rw same h
    | inr (x, checked) ↦
        rw checked
          (check-remembers k n x.key_hex x.nonce_hex e now cfg.replay_window_secs rows soon h)
  ]

  verify_all-remembers :
      (k n : String) (e : ℕ) (between : List (SignedRequest × ℕ)) (rows : List Nonce)
      → All (λ x. x.1 < e) between
      → remembers k n e rows ≡ true
      → remembers k n e (verify_all between rows) ≡ true
  verify_all-remembers k n e [] rows times h = h
  verify_all-remembers k n e ((req, now) ∷ rest) rows times h =
      verify_all-remembers k n e rest _ times.1 (verify-remembers k n e req now rows times.0 h)

  -- A request is executed; between then and `later` other requests are verified; then the same
  -- request arrives again. If its timestamp lies before the first delivery, it is refused.
  pub replay_refused :
      (req : SignedRequest) (h : SignatureHeaders) (id : SignedIdentity) (now later : ℕ)
      (rows rows' : List Nonce) (between : List (SignedRequest × ℕ))
      → verify_signed_request lib cfg req now rows ≡ (ok id, rows')
      → parse_signature_headers req.headers ≡ ok h
      → pos_part h.timestamp < now + neg_part h.timestamp
      → now ≤ later
      → All (λ x. x.1 ≤ later) between
      → ((verify_signed_request lib cfg req later (verify_all between rows')).0 ≡ raise stale)
        ⊎ ((verify_signed_request lib cfg req later (verify_all between rows')).0 ≡ raise replayed)
  replay_refused req h id now later rows rows' between e p before after times =
      let (passed, fresh, table, _) = verify-ok_parsed lib cfg req now rows rows' id h e p in
      let w : ℕ = cfg.replay_window_secs in
      let known = rw table at (fresh_remembered h.key_hex h.nonce_hex now w rows fresh) in
      elim (Bool-cases (ltb w (abs_diff later h.timestamp))) [
        | inl late ↦ inl (verify_stale lib cfg req later _ h p late)
        | inr in_time ↦
            let soon : later < now + w = abs_diff_bound later now w h.timestamp before in_time in
            inr (
              verify_used lib cfg req later _ h
                (record { parsed = p; in_window = ground arith; signed = passed.signed })
                (remembered_refused h.key_hex h.nonce_hex (now + w) later w _ soon (
                  verify_all-remembers h.key_hex h.nonce_hex (now + w) between rows'
                    (All-lt later (now + w) between soon times) known)))
      ]

  -- With a timestamp that is not before the first delivery, the same request is executed again
  -- when the row of its nonce expires, `replay_window_secs` after the first delivery.
  pub replay_executed :
      (req : SignedRequest) (h : SignatureHeaders) (id : SignedIdentity) (now : ℕ)
      (rows rows' : List Nonce)
      → verify_signed_request lib cfg req now rows ≡ (ok id, rows')
      → parse_signature_headers req.headers ≡ ok h
      → now + neg_part h.timestamp ≤ pos_part h.timestamp
      → (verify_signed_request lib cfg req (now + cfg.replay_window_secs) rows').0 ≡ ok id
  replay_executed req h id now rows rows' e p ahead =
      let (passed, fresh, table, same) = verify-ok_parsed lib cfg req now rows rows' id h e p in
      let w : ℕ = cfg.replay_window_secs in
      let again = rw table at (fresh_again h.key_hex h.nonce_hex now w w rows fresh) in
      rw same (
        verify_fresh lib cfg req (now + w) rows' h
          (record {
            parsed = p;
            in_window = abs_diff_later now w h.timestamp ahead passed.in_window;
            signed = passed.signed;
          })
          again)
