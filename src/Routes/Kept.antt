-- ===== src/Routes/Kept.antt =====
-- What the signed routes of src/tessera/http_server.py keep, from what the writes of their handlers
-- keep.
use tessera_server.Common.{ℕ, ◌≡◌, String, Bool, inl, inr, some, sym, subst, Result, Result-cases}
use tessera_server.Common.Int.{ℤ}
use tessera_server.Bytes.{Bytes}
use tessera_server.Config.{TesseraConfig}
use tessera_server.Hydro.{HydroLib, HydroFault, hash32}
use tessera_server.Signing.{SignedRequest}
use tessera_server.Json.{Loaded}
use tessera_server.Http.{Response, Uncaught}
use tessera_server.Db.{Db, Model}
use tessera_server.Social.Request.{
  require_visible_model, with_visible_model-keeps, with_visible_model-keeps_found,
}
use tessera_server.Social.Voting.{vote_request, cast_vote, handle_vote}
use tessera_server.Social.Favouriting.{
  favourite_request, record_favourite, set_favourite, handle_favourite,
}
use tessera_server.Social.Reporting.{ReportRequest, report_request, file_report, handle_report}
use tessera_server.Admin.{ActionRequest, act_on, log_action, handle_admin_action}
use tessera_server.Admin.Bans.{handle_admin_action_cases}
use tessera_server.Upload.{App, handle_upload}
use tessera_server.Routes.{
  Endpoint, upload, vote, favourite, favourites, report, admin_reports, admin_action, with_nonces,
  handle, serve,
}
use tessera_server.Routes.Guarded.{serve_guarded}

-- The writes of the social and the admin handlers keep it; a vote is on a model that is there.
pub record IsKeptByWrites (P : Db → Type 0) : Type 0 where
  pub by_vote :
      (db : Db) (id : ℕ) (voter : String) (value : ℤ) (now : ℕ) (m : Model)
      → require_visible_model db id ≡ some m
      → P db
      → P (cast_vote db id voter value now).1
  pub by_favourite :
      (db : Db) (id : ℕ) (owner : String) (on : Bool) (now : ℕ)
      → P db
      → P (record_favourite db id owner on now)
  pub by_report :
      (cfg : TesseraConfig) (db : Db) (key : String) (q : ReportRequest) (now : ℕ)
      → P db
      → P (file_report cfg db key q now).1
  pub by_action :
      (db : Db) (row : Model) (q : ActionRequest) (key : String) (now : ℕ)
      → P db
      → P (log_action (act_on db row q now).1 key q now)

module _ (P : Db → Type 0) (w : IsKeptByWrites P) where
  handle_vote-keeps :
      (body : Loaded) (key : String) (now : ℕ) (db : Db) → P db → P (handle_vote body key now db).1
  unfolding handle_vote
  handle_vote-keeps body key now db h = elim (Result-cases (vote_request body)) [
    | inl (x, e) ↦ rw (e, handle_vote) h
    | inr (q, e) ↦
        rw (e, handle_vote)
          (with_visible_model-keeps_found P db key q.0 (cast_vote db q.0 key q.1 now) h
            (λ m found. w.by_vote db q.0 key q.1 now m found h))
  ]

  handle_favourite-keeps :
      (body : Loaded) (key : String) (now : ℕ) (db : Db)
      → P db
      → P (handle_favourite body key now db).1
  unfolding handle_favourite set_favourite
  handle_favourite-keeps body key now db h = elim (Result-cases (favourite_request body)) [
    | inl (x, e) ↦ rw (e, handle_favourite) h
    | inr (q, e) ↦
        rw (e, handle_favourite)
          (with_visible_model-keeps P db key q.0 (set_favourite db q.0 key q.1 now) h
            (w.by_favourite db q.0 key q.1 now h))
  ]

  handle_report-keeps :
      (cfg : TesseraConfig) (body : Loaded) (key : String) (now : ℕ) (db : Db)
      → P db
      → P (handle_report cfg body key now db).1
  unfolding handle_report
  handle_report-keeps cfg body key now db h = elim (Result-cases (report_request cfg body)) [
    | inl (x, e) ↦ rw (e, handle_report) h
    | inr (q, e) ↦
        rw (e, handle_report)
          (with_visible_model-keeps P db key q.model_id (file_report cfg db key q now) h
            (w.by_report cfg db key q now h))
  ]

  handle_admin_action-keeps :
      (body : Loaded) (key : String) (now : ℕ) (db : Db)
      → P db
      → P (handle_admin_action body key now db).1
  handle_admin_action-keeps body key now db h = elim (handle_admin_action_cases body key now db) [
    | inl same ↦ subst P (sym same) h
    | inr (q, row, done) ↦ subst P (sym done) (w.by_action db row q key now h)
  ]

-- What does not depend on the tables is kept by their writes.
pub constant-IsKeptByWrites : (C : Type 0) → IsKeptByWrites (λ db. C)
constant-IsKeptByWrites C = record {
  by_vote = λ db id voter value now m found h. h;
  by_favourite = λ db id owner on now h. h;
  by_report = λ cfg db key q now h. h;
  by_action = λ db row q key now h. h;
}

module _ (lib : HydroLib) (loads : Bytes → Loaded) (cfg : TesseraConfig) where
  -- How the blob store hashes.
  abbrev pub blob_hasher : Bytes → Result HydroFault Bytes
  blob_hasher content = hash32 lib content cfg.sign_context

  module _ (P : App → Type 0) where
    -- The handlers keep it, and it does not depend on the nonces.
    pub record IsKept : Type 0 where
      pub by_nonces : (app : App) (nonces : _) → P app → P (with_nonces app nonces)
      pub by_upload :
          (body : Bytes) (key : String) (now : ℕ) (app : App)
          → P app
          → P (handle_upload blob_hasher loads cfg body key now app).1
      pub by_writes : (app : App) → IsKeptByWrites (λ db. P (record app { db = db }))

    module _ (kept : IsKept) where
      handle-keeps :
          (endpoint : Endpoint) (req : SignedRequest) (key : String) (now : ℕ) (app : App)
          → P app
          → P (handle lib loads cfg endpoint req key now app).1
      unfolding handle
      handle-keeps upload req key now app h = kept.by_upload req.body key now app h
      handle-keeps favourites req key now app h = h
      handle-keeps admin_reports req key now app h = h
      handle-keeps vote req key now app h =
          handle_vote-keeps _ (kept.by_writes app) (loads req.body) key now app.db h
      handle-keeps favourite req key now app h =
          handle_favourite-keeps _ (kept.by_writes app) (loads req.body) key now app.db h
      handle-keeps report req key now app h =
          handle_report-keeps _ (kept.by_writes app) cfg (loads req.body) key now app.db h
      handle-keeps admin_action req key now app h =
          handle_admin_action-keeps _ (kept.by_writes app) (loads req.body) key now app.db h

      pub serve-keeps :
          (endpoint : Endpoint) (req : SignedRequest) (now : ℕ) (app : App)
          → P app
          → P (serve lib loads cfg endpoint req now app).1
      serve-keeps endpoint req now app h = elim (serve_guarded lib loads cfg endpoint req now app) [
        | inl same ↦ subst P (sym same) (kept.by_nonces app _ h)
        | inr (who, ok_id, listed, ran) ↦
            subst (λ (w : Result Uncaught Response × App). P w.1) (sym ran)
              (handle-keeps endpoint req who.key_hex now _ (kept.by_nonces app _ h))
      ]

  -- Two properties that are kept are kept together.
  pub both-IsKept : (P Q : App → Type 0) → IsKept P → IsKept Q → IsKept (λ app. P app × Q app)
  both-IsKept P Q p q = record {
    by_nonces = λ app nonces h. (p.by_nonces app nonces h.0, q.by_nonces app nonces h.1);
    by_upload =
        λ body key now app h. (p.by_upload body key now app h.0, q.by_upload body key now app h.1);
    by_writes = λ app. record {
      by_vote = λ db id voter value now m found h. (
        (p.by_writes app).by_vote db id voter value now m found h.0,
        (q.by_writes app).by_vote db id voter value now m found h.1,
      );
      by_favourite = λ db id owner on now h. (
        (p.by_writes app).by_favourite db id owner on now h.0,
        (q.by_writes app).by_favourite db id owner on now h.1,
      );
      by_report = λ cfg' db key r now h. (
        (p.by_writes app).by_report cfg' db key r now h.0,
        (q.by_writes app).by_report cfg' db key r now h.1,
      );
      by_action = λ db row r key now h. (
        (p.by_writes app).by_action db row r key now h.0,
        (q.by_writes app).by_action db row r key now h.1,
      );
    };
  }
