-- ===== src/Routes/Rows.antt =====
-- A row of the models of src/tessera/db.py, and a file of src/tessera/store.py, under the handlers of
-- the signed routes of src/tessera/http_server.py.
use tessera_server.Common.{
  ℕ, ◌≡◌, refl, ◌∙◌, String, Bool, ◌==◌, inl, inr, some, List, [], ◌∷◌, ◌++◌, ok, arith, leb,
  Bool-cases,
}
use tessera_server.Common.Table.{update_where}
use tessera_server.Common.Table.Laws.{fetch_one-update}
use tessera_server.Bytes.{Bytes}
use tessera_server.Config.{TesseraConfig}
use tessera_server.Hydro.{HydroLib}
use tessera_server.Json.{Loaded}
use tessera_server.Db.{Db, Model, find_model}
use tessera_server.Moderation.{set_visibility, apply_autohide, open_report_count, resolve_reports}
use tessera_server.Social.Voting.{cast_vote, record_vote, recount}
use tessera_server.Social.Favouriting.{record_favourite}
use tessera_server.Social.Reporting.{ReportRequest, record_report, file_report}
use tessera_server.Admin.{
  ActionRequest, close_reports, ban_author, act_on, log_action, is_ban, is_unlist,
  action_visibility,
}
use tessera_server.Store
use tessera_server.Store.Reads.{get-put_keeps}
use tessera_server.Upload.{App}
use tessera_server.Upload.Cases.{handle_upload-keeps}
use tessera_server.Routes.Kept.{IsKept, IsKeptByWrites, constant-IsKeptByWrites}

-- The first row with the id has these hashes.
abbrev pub HasRow : ℕ → String → String → List Model → Type 0
HasRow id model_hash thumb_hash models =
    (m : Model) × (find_model id models ≡ some m)
    × (m.model_hash ≡ model_hash)
    × (m.thumb_hash ≡ thumb_hash)

module _ (id : ℕ) (model_hash thumb_hash : String) where
  abbrev pub Has : Db → Type 0
  Has db = HasRow id model_hash thumb_hash db.models

  update-HasRow :
      (p : Model → Bool) (f : Model → Model)
      → ((m : Model) → (f m).id ≡ m.id)
      → ((m : Model) → (f m).model_hash ≡ m.model_hash)
      → ((m : Model) → (f m).thumb_hash ≡ m.thumb_hash)
      → (models : List Model) → HasRow id model_hash thumb_hash models
      → HasRow id model_hash thumb_hash (update_where p f models)
  update-HasRow p f a b c models (m, found, same_model, same_thumb) =
      let after =
        fetch_one-update p (λ (r : Model). r.id == id) f (λ r. ground (arith, a r)) models m
          found in
      elim (Bool-cases (p m)) [
        | inl e ↦ (f m, rw e at after, b m ∙ same_model, c m ∙ same_thumb)
        | inr e ↦ (m, rw e at after, same_model, same_thumb)
      ]

  append-HasRow :
      (row : Model) (models : List Model)
      → HasRow id model_hash thumb_hash models
      → HasRow id model_hash thumb_hash (models ++ row ∷ [])
  append-HasRow row models (m, found, same_model, same_thumb) =
      (m, fetch_one-append_old models found, same_model, same_thumb)
    where
      fetch_one-append_old :
          (rows : List Model)
          → find_model id rows ≡ some m
          → find_model id (rows ++ row ∷ []) ≡ some m
      fetch_one-append_old [] e = ground arith
      fetch_one-append_old (r ∷ rows) e = ground (arith, fetch_one-append_old rows)

  set_visibility-HasRow :
      (db : Db) (model_id : ℕ) (v : _) → Has db → Has (set_visibility db model_id v)
  unfolding set_visibility
  set_visibility-HasRow db model_id v h =
      update-HasRow _ _ (λ m. refl) (λ m. refl) (λ m. refl) db.models h

  file_report-HasRow :
      (cfg : TesseraConfig) (db : Db) (key : String) (q : ReportRequest) (now : ℕ)
      → Has db
      → Has (file_report cfg db key q now).1
  unfolding file_report apply_autohide record_report
  file_report-HasRow cfg db key q now h =
      let filed = record_report db key q now in
      elim (Bool-cases (leb cfg.report_autohide_threshold (open_report_count filed q.model_id))) [
        | inl hit ↦ rw hit (set_visibility-HasRow filed q.model_id _ h)
        | inr miss ↦ rw miss h
      ]

  pub act_on-HasRow :
      (db : Db) (row : Model) (q : ActionRequest) (now : ℕ) → Has db → Has (act_on db row q now).1
  unfolding act_on ban_author resolve_reports
  act_on-HasRow db row q now h =
      let shown = set_visibility db q.model_id (action_visibility q.action) in
      let first = set_visibility-HasRow db q.model_id (action_visibility q.action) h in
      let closed : Has (close_reports shown q now).1 = elim (Bool-cases (is_unlist q.action)) [
        | inl e ↦ rw e first
        | inr e ↦ rw e first
      ] in
      elim (Bool-cases (is_ban q.action)) [
        | inl e ↦ rw e (update-HasRow _ _ (λ m. refl) (λ m. refl) (λ m. refl) _ closed)
        | inr e ↦ rw e closed
      ]

  pub HasRow-IsKeptByWrites : IsKeptByWrites Has
  unfolding cast_vote recount record_vote record_favourite log_action
  HasRow-IsKeptByWrites = record {
    by_vote = λ db model_id voter value now m found h.
        update-HasRow _ _ (λ r. refl) (λ r. refl) (λ r. refl) db.models h;
    by_favourite = λ db model_id owner on now h. h;
    by_report = λ cfg db key q now h. file_report-HasRow cfg db key q now h;
    by_action = λ db row q key now h. act_on-HasRow db row q now h;
  }

  -- A row is never removed, and its hashes are never written.
  pub HasRow-IsKept :
      (lib : HydroLib) (loads : Bytes → Loaded) (cfg : TesseraConfig)
      → IsKept lib loads cfg (λ app. Has app.db)
  HasRow-IsKept lib loads cfg = record {
    by_nonces = λ app nonces h. h;
    by_upload = λ body key now app h.
        handle_upload-keeps (λ (w : App). Has w.db) _ key now (λ w content blobs digest e g. g)
          (λ w e blobs blobs' m t r s new g. append-HasRow _ w.db.models g) loads cfg body app h;
    by_writes = λ app. HasRow-IsKeptByWrites;
  }

module _ (lib : HydroLib) (loads : Bytes → Loaded) (cfg : TesseraConfig) (digest : String)
    (content : Bytes) where
  abbrev Reads : App → Type 0
  Reads app = Store.get digest app.blobs ≡ ok content

  -- A file that can be read stays as it is.
  pub Reads-IsKept : IsKept lib loads cfg Reads
  Reads-IsKept = record {
    by_nonces = λ app nonces h. h;
    by_upload = λ body key now app h.
        handle_upload-keeps Reads _ key now
          (λ w c blobs d e g. get-put_keeps _ c w.blobs blobs d digest content e g)
          (λ w e blobs blobs' m t r s new g. g) loads cfg body app h;
    by_writes = λ app. constant-IsKeptByWrites (Reads app);
  }
