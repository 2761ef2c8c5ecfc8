-- ===== src/Routes/Deleted.antt =====
-- Deleted models, under any sequence of the signed requests of src/tessera/http_server.py.
use tessera_server.Common.{
  ℕ, ◌≤◌, ◌≡◌, String, Bool, false, ◌&&◌, not, inl, inr, List, [], ◌∷◌, ◌++◌, arith, leb, ◌==◌,
  Bool-cases,
}
use tessera_server.Common.Int.{ℤ}
use tessera_server.Common.Table.{exists_where}
use tessera_server.Common.Table.Laws.{exists_where-update_keeps}
use tessera_server.Bytes.{Bytes}
use tessera_server.Config.{TesseraConfig}
use tessera_server.Hydro.{HydroLib}
use tessera_server.Signing.{SignedRequest}
use tessera_server.Json.{Loaded}
use tessera_server.Db.{Db, Model, is_deleted}
use tessera_server.Moderation.{set_visibility, apply_autohide, open_report_count, resolve_reports}
use tessera_server.Social.Voting.{cast_vote, record_vote, recount}
use tessera_server.Social.Favouriting.{record_favourite}
use tessera_server.Social.Reporting.{ReportRequest, record_report, file_report}
use tessera_server.Admin.{ActionRequest, act_on, ban_author, log_action}
use tessera_server.Admin.Bans.{is_live, act_on_deleted}
use tessera_server.Envelope.{UploadEnvelope}
use tessera_server.Upload.{App}
use tessera_server.Routes.{Endpoint, serve}
use tessera_server.Routes.Kept.{IsKept, IsKeptByWrites, serve-keeps}
use tessera_server.Upload.Cases.{with_blobs, with_row, handle_upload-keeps}

-- The id has been given out, and no model with it still exists.
abbrev pub IsGone : ℕ → Db → Type 0
IsGone id db = (exists_where (is_live id) db.models ≡ false) × (id ≤ db.last_id)

exists_where-append :
    {A : Type 0} (p : A → Bool) (x : A)
    → p x ≡ false
    → (rows : List A) → exists_where p rows ≡ false
    → exists_where p (rows ++ x ∷ []) ≡ false
exists_where-append p x h [] e = ground arith
exists_where-append p x h (r ∷ rows) e = ground (arith, exists_where-append p x h rows)

cast_vote-IsGone :
    (id : ℕ) (db : Db) (model_id : ℕ) (voter : String) (value : ℤ) (now : ℕ)
    → IsGone id db
    → IsGone id (cast_vote db model_id voter value now).1
unfolding cast_vote recount record_vote
cast_vote-IsGone id db model_id voter value now (gone, given) = (
  exists_where-update_keeps (λ m. m.id == model_id) (is_live id) _ (λ m e f. f) db.models gone,
  given,
)

set_visibility-IsGone :
    (id : ℕ) (db : Db) (model_id : ℕ) (v : _)
    → IsGone id db
    → IsGone id (set_visibility db model_id v)
unfolding set_visibility
set_visibility-IsGone id db model_id v (gone, given) = (
  exists_where-update_keeps (λ m. m.id == model_id && not (is_deleted m.visibility)) (is_live id) _
      (λ m e f. ground arith) db.models gone,
  given,
)

file_report-IsGone :
    (id : ℕ) (cfg : TesseraConfig) (db : Db) (key : String) (q : ReportRequest) (now : ℕ)
    → IsGone id db
    → IsGone id (file_report cfg db key q now).1
unfolding file_report apply_autohide record_report
file_report-IsGone id cfg db key q now h =
    let filed = record_report db key q now in
    elim (Bool-cases (leb cfg.report_autohide_threshold (open_report_count filed q.model_id))) [
      | inl hit ↦ rw hit (set_visibility-IsGone id filed q.model_id _ h)
      | inr miss ↦ rw miss h
    ]

pub act_on-last_id :
    (db : Db) (row : Model) (q : ActionRequest) (now : ℕ)
    → (act_on db row q now).1.last_id ≡ db.last_id
unfolding act_on ban_author set_visibility resolve_reports
act_on-last_id db row q now = ground arith

act_on-IsGone :
    (id : ℕ) (db : Db) (row : Model) (q : ActionRequest) (now : ℕ)
    → IsGone id db
    → IsGone id (act_on db row q now).1
act_on-IsGone id db row q now (gone, given) =
    (act_on_deleted db row q now id gone, rw (act_on-last_id db row q now) given)

pub IsGone-IsKeptByWrites : (id : ℕ) → IsKeptByWrites (IsGone id)
unfolding record_favourite log_action
IsGone-IsKeptByWrites id = record {
  by_vote =
      λ db model_id voter value now m found h. cast_vote-IsGone id db model_id voter value now h;
  by_favourite = λ db model_id owner on now h. h;
  by_report = λ cfg db key q now h. file_report-IsGone id cfg db key q now h;
  by_action = λ db row q key now h. act_on-IsGone id db row q now h;
}

new_row-IsGone :
    (id : ℕ) (app : App) (e : UploadEnvelope) (author model_hash thumb_hash : String) (now : ℕ)
    → IsGone id app.db
    → IsGone id (with_row app e author model_hash thumb_hash now).db
new_row-IsGone id app e author model_hash thumb_hash now (gone, given) =
    (exists_where-append (is_live id) _ (ground arith) app.db.models gone, omega arith)

module _ (lib : HydroLib) (loads : Bytes → Loaded) (cfg : TesseraConfig) where
  pub IsGone-IsKept : (id : ℕ) → IsKept lib loads cfg (λ w. IsGone id w.db)
  IsGone-IsKept id = record {
    by_nonces = λ app nonces h. h;
    by_upload = λ body key now app h.
        handle_upload-keeps (λ (w : App). IsGone id w.db) _ key now
          (λ w content blobs digest e g. g)
          (λ w e blobs blobs' m t r s new g.
            new_row-IsGone id (with_blobs w blobs') e key m t now g)
          loads cfg body app h;
    by_writes = λ app. IsGone-IsKeptByWrites id;
  }

  -- The state after a list of requests, each served at its own time.
  abbrev pub serve_all : List (Endpoint × SignedRequest × ℕ) → App → App
  serve_all [] app = app
  serve_all ((endpoint, req, now) ∷ rest) app =
      serve_all rest (serve lib loads cfg endpoint req now app).1

  -- Once no model with an id that has been given out still exists, none does after any requests,
  -- uploads and admin actions included: a deletion is final, and an id is not used again.
  pub deleted_final :
      (id : ℕ) (requests : List (Endpoint × SignedRequest × ℕ)) (app : App)
      → exists_where (is_live id) app.db.models ≡ false
      → id ≤ app.db.last_id
      → exists_where (is_live id) (serve_all requests app).db.models ≡ false
  deleted_final id [] app gone given = gone
  deleted_final id ((endpoint, req, now) ∷ rest) app gone given =
      let after =
        serve-keeps lib loads cfg (λ w. IsGone id w.db) (IsGone-IsKept id) endpoint req now app
          (gone, given) in
      deleted_final id rest (serve lib loads cfg endpoint req now app).1 after.0 after.1
