-- ===== src/Social/Reporting/Threshold.antt =====
-- What one report does to the count and to the visibility of its model.
use tessera_server.Common.{
  ℕ, ◌+◌, ◌≤◌, ◌<◌, String, ◌≡◌, refl, Bool, true, false, ◌&&◌, not, List, [], ◌∷◌, arith, leb,
  leb→le, ◌⊎◌, ◌==◌, str_eq, eq_refl, Bool-cases, inl, inr, if◌then◌else◌, ok,
}
use tessera_server.Common.Table.{select, count_where, exists_where, upsert}
use tessera_server.Common.Table.Laws.{exists_where-update_none}
use tessera_server.Json.{boolean, number, field, end}
use tessera_server.Http.{json_response}
use tessera_server.Config.{TesseraConfig}
use tessera_server.Db.{
  Db, Model, Report, Visibility, public, unlisted, deleted, is_deleted, is_public, is_open,
  is_report,
}
use tessera_server.Db.Invariant.{IsKeyed, upsert-IsKeyed}
use tessera_server.Moderation.{count_distinct, open_report_count, set_visibility, apply_autohide}
use tessera_server.Social.Reporting.{
  ReportRequest, new_report, corrected, record_report, file_report,
}

-- UNIQUE (model_id, reporter_key)
abbrev pub ReportsKeyed : Db → Type 0
ReportsKeyed db = IsKeyed (λ (r : Report). r.model_id) (λ r. r.reporter_key) db.reports

abbrev counts : ℕ → Report → Bool
counts id r = r.model_id == id && is_open r

abbrev open_rows : ℕ → List Report → ℕ
open_rows id = count_where (counts id)

absent_reporter :
    (id : ℕ) (key : String) (rows : List Report)
    → count_where (is_report id key) rows ≡ 0
    → exists_where (λ y. str_eq y.reporter_key key) (select (counts id) rows) ≡ false
absent_reporter id key [] h = refl
absent_reporter id key (r ∷ rows) h = ground (arith, absent_reporter id key rows)

tail-IsKeyed :
    (r : Report) (rows : List Report)
    → IsKeyed (λ (r : Report). r.model_id) (λ r. r.reporter_key) (r ∷ rows)
    → IsKeyed (λ (r : Report). r.model_id) (λ r. r.reporter_key) rows
tail-IsKeyed r rows h i k = ground (arith, h i k)

alone :
    (id : ℕ) (r : Report) (rows : List Report)
    → counts id r ≡ true
    → IsKeyed (λ (r : Report). r.model_id) (λ r. r.reporter_key) (r ∷ rows)
    → count_where (is_report id r.reporter_key) rows ≡ 0
alone id r rows e h = ground (arith, h id r.reporter_key, eq_refl r.reporter_key)

-- Under the UNIQUE constraint COUNT(DISTINCT reporter_key) is COUNT(*).
distinct-eq-rows :
    (id : ℕ) (rows : List Report)
    → IsKeyed (λ (r : Report). r.model_id) (λ r. r.reporter_key) rows
    → count_distinct (λ (r : Report). r.reporter_key) (select (counts id) rows) ≡ open_rows id rows
unfolding count_distinct
distinct-eq-rows id [] h = refl
distinct-eq-rows id (r ∷ rows) h = elim (Bool-cases (counts id r)) [
  | inl e ↦
      rw (e, absent_reporter id r.reporter_key rows (alone id r rows e h))
        (omega (arith, distinct-eq-rows id rows (tail-IsKeyed r rows h)))
  | inr e ↦ rw e (omega (arith, distinct-eq-rows id rows (tail-IsKeyed r rows h)))
]

-- The rows of a report by `key`: one more if the key has none on the model, else as many.
module _ (id : ℕ) (key : String) (new : Report) (f : Report → Report) where
  open_rows-upsert_new :
      counts id new ≡ true
      → (rows : List Report) → count_where (is_report id key) rows ≡ 0
      → open_rows id (upsert (is_report id key) new f rows) ≡ open_rows id rows + 1
  open_rows-upsert_new a [] h = ground arith
  open_rows-upsert_new a (r ∷ rows) h = ground (arith, open_rows-upsert_new a rows)

  open_rows-upsert_old :
      ((r : Report) → counts id (f r) ≡ counts id r)
      → (rows : List Report) → 0 < count_where (is_report id key) rows
      → open_rows id (upsert (is_report id key) new f rows) ≡ open_rows id rows
  open_rows-upsert_old a [] h = absurd (omega arith)
  open_rows-upsert_old a (r ∷ rows) h = ground (arith, a r, open_rows-upsert_old a rows)

record_report-ReportsKeyed :
    (db : Db) (key : String) (q : ReportRequest) (now : ℕ)
    → ReportsKeyed db
    → ReportsKeyed (record_report db key q now)
unfolding record_report
record_report-ReportsKeyed db key q now h =
    upsert-IsKeyed (λ (r : Report). r.model_id) (λ r. r.reporter_key) q.model_id key _ _ refl refl
      (λ r. refl) (λ r. refl) db.reports h

counts_new :
    (key : String) (q : ReportRequest) (now : ℕ) → counts q.model_id (new_report key q now) ≡ true
counts_new key q now = ground arith

-- The open reports of a model, by distinct reporters, after one more report by `key`: one more
-- if the key had none on this model, and as many as before if it had one, open or resolved.
pub open_report_count-record_report :
    (db : Db) (key : String) (q : ReportRequest) (now : ℕ)
    → ReportsKeyed db
    → open_report_count (record_report db key q now) q.model_id
      ≡ open_report_count db q.model_id
        + (if count_where (is_report q.model_id key) db.reports == 0 then 1 else 0)
unfolding open_report_count
open_report_count-record_report db key q now h =
    rw
      (
        distinct-eq-rows q.model_id (record_report db key q now).reports
            (record_report-ReportsKeyed db key q now h),
        distinct-eq-rows q.model_id db.reports h,
      )
      (unfold record_report in
        elim (Bool-cases (count_where (is_report q.model_id key) db.reports == 0)) [
          | inl e ↦ rw (
            e,
            open_rows-upsert_new q.model_id key (new_report key q now) (corrected q now)
                (counts_new key q now) db.reports (ground arith),
          )
          | inr e ↦
              rw
                (
                  e,
                  open_rows-upsert_old q.model_id key (new_report key q now) (corrected q now)
                      (λ r. refl) db.reports (ground arith),
                )
                (omega arith)
        ])

record_report-models :
    (db : Db) (key : String) (q : ReportRequest) (now : ℕ)
    → (record_report db key q now).models ≡ db.models
unfolding record_report
record_report-models db key q now = refl

hidden_visibility :
    (here : Bool) (v : Visibility)
    → (here && not (is_deleted v)) ≡ false
    → (here && is_public v) ≡ false
hidden_visibility false v h = refl
hidden_visibility true public h = h
hidden_visibility true unlisted h = refl
hidden_visibility true deleted h = refl

-- Is this the model `id`, and is it public?
abbrev pub is_shown : ℕ → Model → Bool
is_shown id m = m.id == id && is_public m.visibility

set_visibility-unlists :
    (db : Db) (id : ℕ) → exists_where (is_shown id) (set_visibility db id unlisted).models ≡ false
unfolding set_visibility
set_visibility-unlists db id =
    exists_where-update_none (λ m. m.id == id && not (is_deleted m.visibility)) (is_shown id) _
      (λ m hit. ground arith) (λ m miss. hidden_visibility (m.id == id) m.visibility miss) db.models

-- The auto-hide rule on a report that is filed. The count answered is the number of open reports
-- by distinct reporters, this one included. If it reaches the threshold, the answer says that the
-- model is hidden, and the model is not public afterwards; if it does not, the answer says that
-- it is not hidden, and no model changes.
pub file_report_hides :
    (cfg : TesseraConfig) (db : Db) (key : String) (q : ReportRequest) (now : ℕ)
    → ReportsKeyed db
    → (count : ℕ) × (hidden : Bool) × ((file_report cfg db key q now).0
        ≡ ok (
            json_response 202 (
              field "model_id" (number q.model_id) (
                field "reported"
                  (boolean true)
                  (field "report_count" (number count) (field "hidden" (boolean hidden) end))))))
      × (count
          ≡ open_report_count db q.model_id
            + (if count_where (is_report q.model_id key) db.reports == 0 then 1 else 0))
      × (((cfg.report_autohide_threshold ≤ count)
            × (hidden ≡ true)
            × (exists_where (is_shown q.model_id) (file_report cfg db key q now).1.models ≡ false))
          ⊎ ((count < cfg.report_autohide_threshold)
              × (hidden ≡ false)
              × ((file_report cfg db key q now).1.models ≡ db.models)))
unfolding file_report apply_autohide
file_report_hides cfg db key q now keyed =
    let filed = record_report db key q now in
    let count = open_report_count filed q.model_id in
    (
      count,
      leb cfg.report_autohide_threshold count,
      refl,
      open_report_count-record_report db key q now keyed,
      elim (Bool-cases (leb cfg.report_autohide_threshold count)) [
        | inl hit ↦ inl (leb→le _ _ hit, hit, rw hit (set_visibility-unlists filed q.model_id))
        | inr miss ↦ inr (ground arith, miss, rw miss (record_report-models db key q now))
      ],
    )
