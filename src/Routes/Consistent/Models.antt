-- ===== src/Routes/Consistent/Models.antt =====
-- The writes to models and reports that src/tessera/moderation.py, handlers_social.py and
-- handlers_admin.py make.
use tessera_server.Common.{
  ℕ, ◌≤◌, refl, String, Bool, List, ◌==◌, ◌&&◌, leb, str_eq, Bool-cases, inl, inr, some,
}
use tessera_server.Common.Table.{update_where}
use tessera_server.Common.Table.Laws.{All-update, count_where-update}
use tessera_server.Common.Sort.Keyed.{update-IsKeyedBy}
use tessera_server.Config.{TesseraConfig}
use tessera_server.Db.{Db, Model, Report, Visibility, deleted, is_open}
use tessera_server.Db.Invariant.{has_key, IsKeyed, upsert-IsKeyed}
use tessera_server.Moderation.{set_visibility, apply_autohide, open_report_count, resolve_reports}
use tessera_server.Social.Voting.Tally.{IsTallied}
use tessera_server.Social.Reporting.{ReportRequest, record_report, file_report}
use tessera_server.Admin.{
  ActionRequest, is_unlist, is_ban, action_visibility, close_reports, ban_author, act_on,
}
use tessera_server.Store.{Blob}
use tessera_server.Routes.Consistent.{HasFiles, IsSound}

module _ (blobs : List Blob) where
  -- An UPDATE of the visibility of some models.
  show_where-IsSound :
      (p : Model → Bool) (v : Visibility) (db : Db)
      → IsSound blobs db
      → IsSound blobs
          (record db { models = update_where p (λ m. record m { visibility = v }) db.models })
  show_where-IsSound p v db h = record {
    ids_given =
        All-update (λ m. m.id ≤ db.last_id) (λ m. m.id ≤ db.last_id) p _ (λ m e q. q) (λ m e q. q)
          db.models h.ids_given;
    ids_keyed = update-IsKeyedBy (λ m. m.id) p _ (λ m. refl) db.models h.ids_keyed;
    hashes_keyed = λ hash.
        rw
          (count_where-update p (λ m. str_eq m.model_hash hash) (λ m. record m { visibility = v })
            (λ m e. refl) db.models)
          (h.hashes_keyed hash);
    votes_given = h.votes_given;
    votes_keyed = h.votes_keyed;
    favourites_keyed = h.favourites_keyed;
    reports_keyed = h.reports_keyed;
    files =
        All-update (HasFiles blobs) (HasFiles blobs) p _ (λ m e q. q) (λ m e q. q) db.models
          h.files;
    tallied =
        All-update (IsTallied db.votes) (IsTallied db.votes) p _
          (λ m e t. record { score = t.score; ups = t.ups; downs = t.downs }) (λ m e t. t) db.models
          h.tallied;
  }

  pub set_visibility-IsSound :
      (db : Db) (id : ℕ) (v : Visibility)
      → IsSound blobs db
      → IsSound blobs (set_visibility db id v)
  unfolding set_visibility
  set_visibility-IsSound db id v h = show_where-IsSound _ v db h

  -- A write to the reports that keeps their key.
  reports-IsSound :
      (db : Db) (reports : List Report)
      → IsKeyed (λ r. r.model_id) (λ r. r.reporter_key) reports
      → IsSound blobs db
      → IsSound blobs (record db { reports = reports })
  reports-IsSound db reports k h = record {
    ids_given = h.ids_given;
    ids_keyed = h.ids_keyed;
    hashes_keyed = h.hashes_keyed;
    votes_given = h.votes_given;
    votes_keyed = h.votes_keyed;
    favourites_keyed = h.favourites_keyed;
    reports_keyed = k;
    files = h.files;
    tallied = h.tallied;
  }

  resolve_reports-IsSound :
      (db : Db) (id now : ℕ) → IsSound blobs db → IsSound blobs (resolve_reports db id now).1
  unfolding resolve_reports
  resolve_reports-IsSound db id now h =
      reports-IsSound db _
        (λ i k.
          rw
            (count_where-update (λ r. r.model_id == id && is_open r)
              (has_key (λ r. r.model_id) (λ r. r.reporter_key) i k)
              (λ r. record r { resolved_at = some now }) (λ r e. refl) db.reports)
            (h.reports_keyed i k))
        h

  ban_author-IsSound :
      (db : Db) (author reason : String) (now : ℕ)
      → IsSound blobs db
      → IsSound blobs (ban_author db author reason now)
  unfolding ban_author
  ban_author-IsSound db author reason now h =
      show_where-IsSound (λ m. str_eq m.author_key author) deleted db h

  close_reports-IsSound :
      (db : Db) (q : ActionRequest) (now : ℕ)
      → IsSound blobs db
      → IsSound blobs (close_reports db q now).1
  close_reports-IsSound db q now h = elim (Bool-cases (is_unlist q.action)) [
    | inl e ↦ rw e h
    | inr e ↦ rw e (resolve_reports-IsSound db q.model_id now h)
  ]

  pub act_on-IsSound :
      (db : Db) (row : Model) (q : ActionRequest) (now : ℕ)
      → IsSound blobs db
      → IsSound blobs (act_on db row q now).1
  unfolding act_on
  act_on-IsSound db row q now h =
      let shown = set_visibility-IsSound db q.model_id (action_visibility q.action) h in
      let closed = close_reports-IsSound _ q now shown in
      elim (Bool-cases (is_ban q.action)) [
        | inl e ↦ rw e (ban_author-IsSound _ row.author_key q.reason now closed)
        | inr e ↦ rw e closed
      ]

  pub record_report-IsSound :
      (db : Db) (reporter : String) (q : ReportRequest) (now : ℕ)
      → IsSound blobs db
      → IsSound blobs (record_report db reporter q now)
  unfolding record_report
  record_report-IsSound db reporter q now h =
      reports-IsSound db _
        (upsert-IsKeyed (λ (r : Report). r.model_id) (λ r. r.reporter_key) q.model_id reporter _ _
          refl refl (λ r. refl) (λ r. refl) db.reports h.reports_keyed)
        h

  pub file_report-IsSound :
      (cfg : TesseraConfig) (db : Db) (key : String) (q : ReportRequest) (now : ℕ)
      → IsSound blobs db
      → IsSound blobs (file_report cfg db key q now).1
  unfolding file_report apply_autohide
  file_report-IsSound cfg db key q now h =
      let filed = record_report db key q now in
      let sound = record_report-IsSound db key q now h in
      elim (Bool-cases (leb cfg.report_autohide_threshold (open_report_count filed q.model_id))) [
        | inl hit ↦ rw hit (set_visibility-IsSound filed q.model_id _ sound)
        | inr miss ↦ rw miss sound
      ]
