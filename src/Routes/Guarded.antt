-- ===== src/Routes/Guarded.antt =====
-- The checks of signed_route of src/tessera/http_server.py in front of the handlers.
use tessera_server.Common.{
  ℕ, ◌≡◌, ◌⊎◌, sym, ap, ◌∙◌, true, false, inl, inr, List, Result, ok, arith, str_eq, Bool-cases,
  Result-cases,
}
use tessera_server.Common.Table.{exists_where}
use tessera_server.Bytes.{Bytes}
use tessera_server.Config.{TesseraConfig}
use tessera_server.Hydro.{HydroLib}
use tessera_server.Replay.{Nonce}
use tessera_server.Signing.{Refusal, SignedIdentity, SignedRequest, verify_signed_request}
use tessera_server.Signing.Accepted.{verify-ok}
use tessera_server.Json.{Loaded}
use tessera_server.Upload.{App}
use tessera_server.Routes.{Endpoint, needs_admin, with_nonces, handle, serve}

module _ (lib : HydroLib) (loads : Bytes → Loaded) (cfg : TesseraConfig) where
  abbrev verified : SignedRequest → ℕ → App → Result Refusal SignedIdentity × List Nonce
  verified req now app = verify_signed_request lib cfg req now app.db.nonces

  -- An identity with administrator's rights is one of the configured keys.
  admin-listed :
      (req : SignedRequest) (now : ℕ) (app : App) (id : SignedIdentity)
      → (verified req now app).0 ≡ ok id
      → id.is_admin ≡ true
      → exists_where (λ k. str_eq k id.key_hex) cfg.admin_keys ≡ true
  admin-listed req now app id p allowed =
      let (h, passed, name, admin, fresh, table) =
        verify-ok lib cfg req now app.db.nonces (verified req now app).1 id
          (ap (λ (r : Result Refusal SignedIdentity). (r, (verified req now app).1)) p) in
      rw name (sym admin ∙ allowed)

  -- A route either leaves everything but the nonce table as it was, or the signature verified, the
  -- key is an administrator's if the route asks for one, and the handler ran for that key on the
  -- tables that the verification left.
  pub serve_guarded :
      (endpoint : Endpoint) (req : SignedRequest) (now : ℕ) (app : App)
      → ((serve lib loads cfg endpoint req now app).1 ≡ with_nonces app (verified req now app).1)
        ⊎ ((id : SignedIdentity) × ((verified req now app).0 ≡ ok id)
            × ((needs_admin endpoint ≡ false)
                ⊎ (exists_where (λ k. str_eq k id.key_hex) cfg.admin_keys ≡ true))
            × (serve lib loads cfg endpoint req now app
                ≡ handle lib loads cfg endpoint req id.key_hex now
                    (with_nonces app (verified req now app).1)))
  unfolding serve
  serve_guarded endpoint req now app = elim (Result-cases (verified req now app).0) [
    | inl (x, p) ↦ inl (ground arith)
    | inr (id, p) ↦ elim (Bool-cases (needs_admin endpoint)) [
      | inl admin ↦ elim (Bool-cases id.is_admin) [
        | inl allowed ↦ inr (id, p, inr (admin-listed req now app id p allowed), ground arith)
        | inr refused ↦ inl (ground arith)
      ]
      | inr public ↦ inr (id, p, inl public, ground arith)
    ]
  ]
