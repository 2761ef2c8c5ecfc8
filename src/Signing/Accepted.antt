-- ===== src/Signing/Accepted.antt =====
-- What src/tessera/signing.py has checked of a request that it accepts, and when it writes.
use tessera_server.Common.{
  ℕ, ◌≤◌, ◌≡◌, ◌≢◌, ◌⊎◌, inl, inr, true, false, List, arith, ok, raise, ltb, str_eq, Result-cases,
}
use tessera_server.Common.Int.{abs_diff}
use tessera_server.Common.Table.{exists_where}
use tessera_server.Config.{TesseraConfig}
use tessera_server.Bytes.{Bytes}
use tessera_server.Bytes.Codec.{hex, from_hex}
use tessera_server.Hydro.{HydroLib, hash32, sign_verify, fixed, context_bytes}
use tessera_server.Replay.{Nonce, check_and_record}
use tessera_server.Signing.{
  Refusal, SignedIdentity, SignedRequest, SignatureHeaders, parse_signature_headers, signature_ok,
  canonical_message, authenticate, verify_signed_request, stale, replayed,
}

module _ (lib : HydroLib) (cfg : TesseraConfig) (req : SignedRequest) where
  -- What a request has passed before the nonce table is touched.
  pub record Passed (h : SignatureHeaders) (now : ℕ) : Type 0 where
    pub parsed : parse_signature_headers req.headers ≡ ok h
    pub in_window : abs_diff now h.timestamp ≤ cfg.replay_window_secs
    pub signed : signature_ok lib cfg req h ≡ ok true

  pub authenticate-Passed :
      (now : ℕ) (h : SignatureHeaders) → authenticate lib cfg req now ≡ ok h → Passed h now
  unfolding authenticate
  authenticate-Passed now h e = ground arith

  pub Passed-authenticate :
      (now : ℕ) (h : SignatureHeaders) → Passed h now → authenticate lib cfg req now ≡ ok h
  unfolding authenticate
  Passed-authenticate now h p = ground arith

  -- Outside the window a request that parses is stale, whatever its signature.
  pub authenticate-stale :
      (now : ℕ) (h : SignatureHeaders)
      → parse_signature_headers req.headers ≡ ok h
      → ltb cfg.replay_window_secs (abs_diff now h.timestamp) ≡ true
      → authenticate lib cfg req now ≡ raise stale
  unfolding authenticate
  authenticate-stale now h p q = ground arith

  -- A successful call, taken apart.
  pub verify-ok :
      (now : ℕ) (rows rows' : List Nonce) (id : SignedIdentity)
      → verify_signed_request lib cfg req now rows ≡ (ok id, rows')
      → (h : SignatureHeaders) × Passed h now
        × (id.key_hex ≡ h.key_hex)
        × (id.is_admin ≡ exists_where (λ k. str_eq k h.key_hex) cfg.admin_keys)
        × ((check_and_record h.key_hex h.nonce_hex now cfg.replay_window_secs rows).0 ≡ true)
        × ((check_and_record h.key_hex h.nonce_hex now cfg.replay_window_secs rows).1 ≡ rows')
  unfolding verify_signed_request
  verify-ok now rows rows' id e = elim (Result-cases (authenticate lib cfg req now)) [
    | inl (x, p) ↦ absurd (ground arith)
    | inr (h, p) ↦
        (h, authenticate-Passed now h p, ground arith, ground arith, ground arith, ground arith)
  ]

  signature_ok_sound :
      (h : SignatureHeaders)
      → signature_ok lib cfg req h ≡ ok true
      → (body_hash : Bytes) × (message : Bytes) × (ctx : Bytes) × (hash32 lib req.body
            cfg.sign_context
          ≡ ok body_hash)
        × (canonical_message req.method req.path h.timestamp h.nonce_hex (hex body_hash)
            ≡ ok message)
        × (context_bytes cfg.sign_context ≡ ok ctx)
        × (lib.hydro_sign_verify h.signature message ctx (from_hex h.key_hex) ≡ 0)
  unfolding signature_ok sign_verify fixed
  signature_ok_sound h e = elim (Result-cases (hash32 lib req.body cfg.sign_context)) [
    | inl (x, p) ↦ absurd (ground arith)
    | inr (b, p) ↦
        elim (Result-cases
          (canonical_message req.method req.path h.timestamp h.nonce_hex (hex b))) [
            | inl (x, q) ↦ absurd (ground arith)
            | inr (m, q) ↦ elim (Result-cases (context_bytes cfg.sign_context)) [
              | inl (x, r) ↦ absurd (ground arith)
              | inr (c, r) ↦ (b, m, c, p, q, r, ground arith)
            ]
          ]
  ]

  -- A request that is accepted has a parsed set of headers, a timestamp within the window of the
  -- clock, a pair of key and nonce that was not on record, and a signature that the library
  -- verified, under the key of the identity, over the canonical message of this method, this
  -- path, this timestamp, this nonce and the hash of this body.
  pub accepted_signed :
      (now : ℕ) (rows rows' : List Nonce) (id : SignedIdentity)
      → verify_signed_request lib cfg req now rows ≡ (ok id, rows')
      → (h : SignatureHeaders) × (body_hash : Bytes) × (message : Bytes) × (ctx : Bytes)
        × (parse_signature_headers req.headers ≡ ok h)
        × (abs_diff now h.timestamp ≤ cfg.replay_window_secs)
        × ((check_and_record id.key_hex h.nonce_hex now cfg.replay_window_secs rows).0 ≡ true)
        × (hash32 lib req.body cfg.sign_context ≡ ok body_hash)
        × (canonical_message req.method req.path h.timestamp h.nonce_hex (hex body_hash)
            ≡ ok message)
        × (context_bytes cfg.sign_context ≡ ok ctx)
        × (lib.hydro_sign_verify h.signature message ctx (from_hex id.key_hex) ≡ 0)
  accepted_signed now rows rows' id e =
      let (h, passed, name, admin, fresh, table) = verify-ok now rows rows' id e in
      let (body_hash, message, ctx, hashed, made, context, verified) =
        signature_ok_sound h passed.signed in
      (
        h,
        body_hash,
        message,
        ctx,
        passed.parsed,
        passed.in_window,
        rw name fresh,
        hashed,
        made,
        context,
        rw name verified,
      )

  -- A call that raises anything but a replay has not written to the nonce table.
  pub verify_raise_keeps :
      (now : ℕ) (rows rows' : List Nonce) (x : Refusal)
      → verify_signed_request lib cfg req now rows ≡ (raise x, rows')
      → x ≢ replayed
      → rows' ≡ rows
  unfolding verify_signed_request
  verify_raise_keeps now rows rows' x e ne = ground arith

  -- Either nothing is written, or the pair of the headers is checked and recorded.
  pub verify-rows :
      (now : ℕ) (rows : List Nonce)
      → ((verify_signed_request lib cfg req now rows).1 ≡ rows)
        ⊎ ((h : SignatureHeaders) × ((verify_signed_request lib cfg req now rows).1
              ≡ (check_and_record h.key_hex h.nonce_hex now cfg.replay_window_secs rows).1))
  unfolding verify_signed_request
  verify-rows now rows = elim (Result-cases (authenticate lib cfg req now)) [
    | inl (x, p) ↦ inl (ground arith)
    | inr (h, p) ↦ inr (h, ground arith)
  ]

  -- A request that passes the checks is refused exactly if its pair is on record.
  pub verify_used :
      (now : ℕ) (rows : List Nonce) (h : SignatureHeaders)
      → Passed h now
      → (check_and_record h.key_hex h.nonce_hex now cfg.replay_window_secs rows).0 ≡ false
      → (verify_signed_request lib cfg req now rows).0 ≡ raise replayed
  unfolding verify_signed_request
  verify_used now rows h p used = ground (arith, Passed-authenticate now h p)

  pub verify_fresh :
      (now : ℕ) (rows : List Nonce) (h : SignatureHeaders)
      → Passed h now
      → (check_and_record h.key_hex h.nonce_hex now cfg.replay_window_secs rows).0 ≡ true
      → (verify_signed_request lib cfg req now rows).0
        ≡ ok (record {
          key_hex = h.key_hex;
          is_admin = exists_where (λ k. str_eq k h.key_hex) cfg.admin_keys;
        })
  unfolding verify_signed_request
  verify_fresh now rows h p fresh = ground (arith, Passed-authenticate now h p)

  pub verify_stale :
      (now : ℕ) (rows : List Nonce) (h : SignatureHeaders)
      → parse_signature_headers req.headers ≡ ok h
      → ltb cfg.replay_window_secs (abs_diff now h.timestamp) ≡ true
      → (verify_signed_request lib cfg req now rows).0 ≡ raise stale
  unfolding verify_signed_request
  verify_stale now rows h p q = ground (arith, authenticate-stale now h p q)

  -- `verify-ok` for a request whose headers are known.
  pub verify-ok_parsed :
      (now : ℕ) (rows rows' : List Nonce) (id : SignedIdentity) (h : SignatureHeaders)
      → verify_signed_request lib cfg req now rows ≡ (ok id, rows')
      → parse_signature_headers req.headers ≡ ok h
      → Passed h now
        × ((check_and_record h.key_hex h.nonce_hex now cfg.replay_window_secs rows).0 ≡ true)
        × ((check_and_record h.key_hex h.nonce_hex now cfg.replay_window_secs rows).1 ≡ rows')
        × (id ≡ record {
          key_hex = h.key_hex;
          is_admin = exists_where (λ k. str_eq k h.key_hex) cfg.admin_keys;
        })
  verify-ok_parsed now rows rows' id h e p =
      let (h', passed, name, admin, fresh, table) = verify-ok now rows rows' id e in
      let same : h' ≡ h = cc (passed.parsed) in
      (rw same at passed, rw same at fresh, rw same at table, ground arith)
