-- ===== src/Social/Reporting.antt =====
-- handle_report of src/tessera/handlers_social.py.
pub mod Threshold
use tessera_server.Common.{
  ℕ, String, Bool, true, false, Option, none, some, List, [], ◌∷◌, Result, ok, raise, ◌>>=◌, str_eq,
  if◌then◌else◌,
}
use tessera_server.Common.Table.{exists_where, upsert}
use tessera_server.Common.Text
use tessera_server.Config.{TesseraConfig}
use tessera_server.Json.{Json, null, str, boolean, field, end, number, get, Loaded}
use tessera_server.Http.{Response, json_response, Uncaught}
use tessera_server.Db.{Db, Report, is_report}
use tessera_server.Moderation.{apply_autohide}
use tessera_server.Social.Request.{
  Fault, bad_request, read_json, read_model_id, item, answer_fault, with_visible_model,
}

abbrev pub max_detail_chars : ℕ
max_detail_chars = 512

-- _clean_detail of payload.get("detail")
unfoldable pub clean_detail : Option Json → Result Fault String
clean_detail none = ok ""
clean_detail (some null) = ok ""
clean_detail (some (str raw)) =
    if Text.any Text.is_control raw
    then raise bad_request
    else ok (Text.take max_detail_chars (Text.strip raw))
clean_detail (some _) = raise bad_request

abbrev reason_in : List String → Json → Result Fault String
reason_in reasons (str reason) =
    if exists_where (λ r. str_eq r reason) reasons then ok reason else raise bad_request
reason_in reasons _ = raise bad_request

-- The body of a report, checked.
pub record ReportRequest : Type 0 where
  pub model_id : ℕ
  pub reason : String
  pub detail : String

-- The `try` block of handle_report.
unfoldable pub report_request : TesseraConfig → Loaded → Result Fault ReportRequest
unfolding read_json read_model_id clean_detail
report_request cfg body = do
  payload ← read_json body ("model_id" ∷ "reason" ∷ [])
  model_id ← read_model_id payload
  raw ← item "reason" payload
  reason ← reason_in cfg.report_reasons raw
  detail ← clean_detail (get "detail" payload)
  ok (record { model_id = model_id; reason = reason; detail = detail })

-- The row that the INSERT writes.
abbrev pub new_report : String → ReportRequest → ℕ → Report
new_report reporter q now = record {
  model_id = q.model_id;
  reporter_key = reporter;
  reason = q.reason;
  detail = q.detail;
  created_at = now;
  resolved_at = none;
}

-- What the UPDATE makes of the row that is there.
abbrev pub corrected : ReportRequest → ℕ → Report → Report
corrected q now r = record r { reason = q.reason; detail = q.detail; created_at = now }

-- INSERT … ON CONFLICT DO UPDATE SET reason, detail, created_at: `resolved_at` stays.
unfoldable pub record_report : Db → String → ReportRequest → ℕ → Db
record_report db reporter q now = record db {
  reports =
      upsert (is_report q.model_id reporter) (new_report reporter q now) (corrected q now)
        db.reports;
}

-- The `with` block and the answer.
unfoldable pub file_report :
    TesseraConfig → Db → String → ReportRequest → ℕ → Result Uncaught Response × Db
file_report cfg db reporter q now =
    let (count, hidden, db') = apply_autohide cfg (record_report db reporter q now) q.model_id in
    (
      ok (
          json_response 202 (
            field "model_id" (number q.model_id) (
              field "reported" (boolean true)
                (field "report_count" (number count) (field "hidden" (boolean hidden) end))))),
      db',
    )

-- handle_report
unfoldable pub handle_report :
    TesseraConfig → Loaded → String → ℕ → Db → Result Uncaught Response × Db
handle_report cfg body key now db = elim (report_request cfg body) [
  | raise e ↦ (answer_fault e, db)
  | ok q ↦ with_visible_model db key q.model_id (file_report cfg db key q now)
]
