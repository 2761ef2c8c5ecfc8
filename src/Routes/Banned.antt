-- ===== src/Routes/Banned.antt =====
-- Requests by banned keys, on the signed routes of src/tessera/http_server.py.
use tessera_server.Common.{
  ℕ, ◌≡◌, refl, ap, ◌∙◌, String, true, false, inl, inr, Result, ok, arith, Result-cases,
}
use tessera_server.Bytes.{Bytes}
use tessera_server.Config.{TesseraConfig}
use tessera_server.Hydro.{HydroLib, HydroFault}
use tessera_server.Signing.{SignedIdentity, SignedRequest, verify_signed_request}
use tessera_server.Json.{Loaded}
use tessera_server.Http.{Response, Uncaught}
use tessera_server.Db.{Db, is_banned}
use tessera_server.Social.Request.{with_visible_model_banned}
use tessera_server.Social.Voting.{vote_request, cast_vote, handle_vote}
use tessera_server.Social.Favouriting.{favourite_request, set_favourite, handle_favourite}
use tessera_server.Social.Reporting.{report_request, file_report, handle_report}
use tessera_server.Envelope.{parse_upload}
use tessera_server.Quota.{check_upload_allowed}
use tessera_server.Upload.{App, handle_upload}
use tessera_server.Routes.{
  Endpoint, upload, vote, favourite, favourites, report, admin_reports, admin_action, needs_admin,
  with_nonces, handle, serve,
}

module _ (body : Loaded) (key : String) (now : ℕ) (db : Db) (b : is_banned db key ≡ true) where
  handle_vote_banned : (handle_vote body key now db).1 ≡ db
  unfolding handle_vote
  handle_vote_banned = elim (Result-cases (vote_request body)) [
    | inl (x, e) ↦ rw (e, handle_vote) refl
    | inr (q, e) ↦
        rw (e, handle_vote)
          (rw (with_visible_model_banned db key q.0 (cast_vote db q.0 key q.1 now) b) refl)
  ]

  handle_favourite_banned : (handle_favourite body key now db).1 ≡ db
  unfolding handle_favourite
  handle_favourite_banned = elim (Result-cases (favourite_request body)) [
    | inl (x, e) ↦ rw (e, handle_favourite) refl
    | inr (q, e) ↦
        rw (e, handle_favourite)
          (rw (with_visible_model_banned db key q.0 (set_favourite db q.0 key q.1 now) b) refl)
  ]

  handle_report_banned : (cfg : TesseraConfig) → (handle_report cfg body key now db).1 ≡ db
  unfolding handle_report
  handle_report_banned cfg = elim (Result-cases (report_request cfg body)) [
    | inl (x, e) ↦ rw (e, handle_report) refl
    | inr (q, e) ↦
        rw (e, handle_report)
          (rw (with_visible_model_banned db key q.model_id (file_report cfg db key q now) b) refl)
  ]

handle_upload_banned :
    (hasher : Bytes → Result HydroFault Bytes) (loads : Bytes → Loaded) (cfg : TesseraConfig)
    (body : Bytes) (key : String) (now : ℕ) (app : App)
    → is_banned app.db key ≡ true
    → (handle_upload hasher loads cfg body key now app).1 ≡ app
unfolding handle_upload check_upload_allowed
handle_upload_banned hasher loads cfg body key now app b =
    elim (Result-cases (parse_upload loads cfg body)) [
      | inl (x, p) ↦ rw (p, handle_upload) refl
      | inr (e, p) ↦ rw (p, handle_upload) (ground arith)
    ]

module _ (lib : HydroLib) (loads : Bytes → Loaded) (cfg : TesseraConfig) where
  handle_banned :
      (endpoint : Endpoint) (req : SignedRequest) (key : String) (now : ℕ) (app : App)
      → needs_admin endpoint ≡ false
      → is_banned app.db key ≡ true
      → (handle lib loads cfg endpoint req key now app).1 ≡ app
  unfolding handle
  handle_banned upload req key now app anyone b =
      handle_upload_banned _ loads cfg req.body key now app b
  handle_banned favourites req key now app anyone b = refl
  handle_banned admin_reports req key now app anyone b = absurd (ground arith)
  handle_banned vote req key now app anyone b =
      ap (λ (w : Db). record app { db = w }) (handle_vote_banned (loads req.body) key now app.db b)
  handle_banned favourite req key now app anyone b =
      ap (λ (w : Db). record app { db = w })
        (handle_favourite_banned (loads req.body) key now app.db b)
  handle_banned report req key now app anyone b =
      ap (λ (w : Db). record app { db = w })
        (handle_report_banned (loads req.body) key now app.db b cfg)
  handle_banned admin_action req key now app anyone b = absurd (ground arith)

  -- A request signed by a banned key, on a route that asks for no administrator, changes nothing
  -- but the nonce table.
  pub banned_powerless :
      (endpoint : Endpoint) (req : SignedRequest) (now : ℕ) (app : App) (id : SignedIdentity)
      → needs_admin endpoint ≡ false
      → (verify_signed_request lib cfg req now app.db.nonces).0 ≡ ok id
      → is_banned app.db id.key_hex ≡ true
      → (serve lib loads cfg endpoint req now app).1
        ≡ with_nonces app (verify_signed_request lib cfg req now app.db.nonces).1
  unfolding serve is_banned
  banned_powerless endpoint req now app id anyone verified b =
      let app' = with_nonces app (verify_signed_request lib cfg req now app.db.nonces).1 in
      let ran : serve lib loads cfg endpoint req now app
          ≡ handle lib loads cfg endpoint req id.key_hex now app' =
        ground arith in
      ap (λ (w : Result Uncaught Response × App). w.1) ran
      ∙ handle_banned endpoint req id.key_hex now app' anyone b
