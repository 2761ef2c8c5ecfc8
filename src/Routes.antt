-- ===== src/Routes.antt =====
-- signed_route of src/tessera/http_server.py, and the seven signed routes. `loads` stands for
-- decoding a body as UTF-8 JSON, and the blob store hashes under the signing context.
pub mod Consistent
pub mod Kept
pub mod Rows
pub mod Healthy
pub mod Guarded
pub mod Deleted
pub mod Banned
use tessera_server.Common.{
  String, ℕ, Bool, true, false, ◌&&◌, not, Result, ok, raise, if◌then◌else◌, List,
}
use tessera_server.Bytes.{Bytes}
use tessera_server.Config.{TesseraConfig}
use tessera_server.Hydro.{HydroLib, HydroFault, hash32}
use tessera_server.Replay.{Nonce}
use tessera_server.Signing.{
  Refusal, signature_error, uncaught, SignedIdentity, SignedRequest, verify_signed_request,
}
use tessera_server.Json.{Loaded}
use tessera_server.Http.{Response, error, Uncaught, exception}
use tessera_server.Db.{Db}
use tessera_server.Social.Voting.{handle_vote}
use tessera_server.Social.Favouriting.{handle_favourite}
use tessera_server.Social.Favouriting.Listing.{handle_favourites}
use tessera_server.Social.Reporting.{handle_report}
use tessera_server.Admin.{handle_admin_action}
use tessera_server.Admin.Reports.{handle_admin_reports}
use tessera_server.Upload.{App, handle_upload}

-- The handlers behind a signature.
pub data Endpoint : Type 0 where
  upload vote favourite favourites report admin_reports admin_action : Endpoint

-- The `admin` argument of the route.
abbrev pub needs_admin : Endpoint → Bool
needs_admin admin_action = true
needs_admin admin_reports = true
needs_admin _ = false

abbrev pub with_nonces : App → List Nonce → App
with_nonces app nonces = record app { db = record app.db { nonces = nonces } }

-- An answer on the tables as one on the tables and the blobs.
abbrev on_db : App → Result Uncaught Response × Db → Result Uncaught Response × App
on_db app (answer, db) = (answer, record app { db = db })

-- `except SignatureError`; anything else goes through.
abbrev pub answer_refusal : Refusal → Result Uncaught Response
answer_refusal (signature_error status code) = ok (error status code)
answer_refusal uncaught = raise exception

module _ (lib : HydroLib) (loads : Bytes → Loaded) (cfg : TesseraConfig) where
  -- The handler of an endpoint, for the holder of `key`.
  unfoldable pub handle :
      Endpoint → SignedRequest → String → ℕ → App → Result Uncaught Response × App
  handle upload req key now app =
      handle_upload (λ content. hash32 lib content cfg.sign_context) loads cfg req.body key now app
  handle vote req key now app = on_db app (handle_vote (loads req.body) key now app.db)
  handle favourite req key now app = on_db app (handle_favourite (loads req.body) key now app.db)
  handle favourites req key now app = (handle_favourites cfg req.query key app.db, app)
  handle report req key now app = on_db app (handle_report cfg (loads req.body) key now app.db)
  handle admin_reports req key now app = (handle_admin_reports cfg req.query app.db, app)
  handle admin_action req key now app =
      on_db app (handle_admin_action (loads req.body) key now app.db)

  -- The wrapper that signed_route puts around the handler.
  unfoldable pub serve : Endpoint → SignedRequest → ℕ → App → Result Uncaught Response × App
  serve endpoint req now app =
      let (verified, nonces) = verify_signed_request lib cfg req now app.db.nonces in
      let app' = with_nonces app nonces in
      elim verified [
        | raise refusal ↦ (answer_refusal refusal, app')
        | ok identity ↦
            if needs_admin endpoint && not identity.is_admin
            then (ok (error 403 "not_admin"), app')
            else handle endpoint req identity.key_hex now app'
      ]
