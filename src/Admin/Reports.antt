-- ===== src/Admin/Reports.antt =====
-- handle_admin_reports of src/tessera/handlers_admin.py.
pub mod Queue
use Prim.Native.Nat.{Ordering}
use Prim.Native.Char.{Char, code}
use Prim.Native.String.{◌++◌ as append, compare}
use tessera_server.Common.{
  ℕ, zero, suc, ◌+◌, ◌-◌, ◌*◌, ◌<◌, ◌≡◌, ◌↔◌, refl, sym, ap, ◌∙◌, String, Bool, true, false, ◌&&◌,
  ◌||◌, not, List, [], ◌∷◌, ◌==◌, ltb, str_eq, arith, Bool-cases, inl, inr, Result, ok, raise,
  if◌then◌else◌,
}
use tessera_server.Common.Table.{select, exists_where}
use tessera_server.Common.Sort.{order_by, page_of}
use tessera_server.Config.{TesseraConfig}
use tessera_server.Json.{Json, Items, nil, cons, obj, arr, str, field, end, number}
use tessera_server.Http.{Response, json_response, Uncaught, exception}
use tessera_server.Db.{
  Db, Model, Report, Visibility, public, unlisted, deleted, is_open, max_sql_int,
}
use tessera_server.Admin.{visibility_name}
use tessera_server.Moderation.{count_distinct, open_report_count}
use tessera_server.Content.{Query, positive_int, first_or}
use tessera_server.Content.Browse.{max_page}

-- WHERE r.resolved_at IS NULL, or IS NOT NULL
abbrev pub is_wanted : Bool → Report → Bool
is_wanted want_resolved r = if want_resolved then not (is_open r) else is_open r

-- COUNT(DISTINCT model_id)
abbrev pub count_models : List Report → ℕ
count_models [] = 0
count_models (r ∷ rs) =
    let rest = count_models rs in
    if exists_where (λ s. s.model_id == r.model_id) rs then rest else suc rest

-- DISTINCT reason: each at its last occurrence, as the reasons are sorted later
abbrev distinct_reasons : List Report → List String
distinct_reasons [] = []
distinct_reasons (r ∷ rs) =
    let rest = distinct_reasons rs in
    if exists_where (λ s. str_eq s.reason r.reason) rs then rest else r.reason ∷ rest

-- GROUP_CONCAT(words, separator)
abbrev pub join : String → List String → String
join separator [] = ""
join separator (w ∷ []) = w
join separator (w ∷ v ∷ ws) = append w (append separator (join separator (v ∷ ws)))

onto_first : Char → List String → List String
onto_first c [] = String.◌∷◌ c "" ∷ []
onto_first c (w ∷ ws) = String.◌∷◌ c w ∷ ws

-- text.split(",")
split_commas : String → List String
unfolding onto_first
split_commas String.[] = "" ∷ []
split_commas (String.◌∷◌ c s) =
    let rest = split_commas s in if code c == b',' then "" ∷ rest else onto_first c rest

abbrev not_after : String → String → Bool
not_after a b = elim (compare a b) [ Ordering.gt ↦ false | Ordering.lt ↦ true | Ordering.eq ↦ true ]

-- sorted(part for part in reasons_csv.split(",") if part)
unfoldable pub sorted_reasons : List Report → List String
unfolding split_commas
sorted_reasons reports =
    order_by not_after
      (select (λ part. not (str_eq part "")) (split_commas (join "," (distinct_reasons reports))))

-- MAX(created_at)
abbrev last_report : List Report → ℕ
last_report [] = 0
last_report (r ∷ rs) =
    let rest = last_report rs in if ltb rest r.created_at then r.created_at else rest

abbrev details_of : List Report → List String
details_of [] = []
details_of (r ∷ rs) = r.detail ∷ details_of rs

-- One row: a model and the reports on it that are wanted.
pub record QueueRow : Type 0 where
  pub model : Model
  pub report_count : ℕ
  pub reasons : List String
  pub details : String
  pub last_report_at : ℕ

-- GROUP BY r.model_id, for one model. The details, whose order SQL leaves open, stand in the order
-- of the table.
unfoldable pub queue_row : List Report → Model → QueueRow
unfolding sorted_reasons count_distinct
queue_row wanted m =
    let group = select (λ r. r.model_id == m.id) wanted in
    record {
      model = m;
      report_count = count_distinct (λ r. r.reporter_key) group;
      reasons = sorted_reasons group;
      details = join "\n" (details_of group);
      last_report_at = last_report group;
    }

abbrev pub queue_rows : List Report → List Model → List QueueRow
queue_rows wanted [] = []
queue_rows wanted (m ∷ ms) =
    let rest = queue_rows wanted ms in
    if exists_where (λ r. r.model_id == m.id) wanted then queue_row wanted m ∷ rest else rest

-- ORDER BY report_count DESC, last_report_at DESC. Rows that tie, whose order SQL leaves open, stand
-- in the order of the models.
abbrev pub more_reported : QueueRow → QueueRow → Bool
more_reported a b =
    ltb b.report_count a.report_count
    || (a.report_count == b.report_count && not (ltb a.last_report_at b.last_report_at))

-- The moderation queue, or the closed reports.
unfoldable pub queue : Bool → Db → List QueueRow
unfolding queue_row
queue want_resolved db =
    order_by more_reported (queue_rows (select (is_wanted want_resolved) db.reports) db.models)

abbrev strings : List String → Items
strings [] = nil
strings (w ∷ ws) = cons (str w) (strings ws)

abbrev pub queue_item : QueueRow → Json
queue_item row = obj (
    field "model_id" (number row.model.id) (
      field "title" (str row.model.title) (
        field "author_key" (str row.model.author_key) (
          field "kind" (str row.model.kind) (
            field "visibility" (str (visibility_name row.model.visibility)) (
              field "created_at" (number row.model.created_at) (
                field "report_count" (number row.report_count) (
                  field "details" (str row.details) (
                    field "last_report_at" (number row.last_report_at)
                      (field "reasons" (arr (strings row.reasons)) end))))))))))

abbrev queue_items : List QueueRow → Items
queue_items [] = nil
queue_items (row ∷ rows) = cons (queue_item row) (queue_items rows)

-- handle_admin_reports
unfoldable pub handle_admin_reports : TesseraConfig → Query → Db → Result Uncaught Response
unfolding positive_int queue
handle_admin_reports cfg query db =
    let page = positive_int (query "page") 1 max_page in
    let per_page = positive_int (query "per_page") cfg.browse_page_size cfg.browse_max_page_size in
    let want_resolved = str_eq (first_or (query "resolved") "0") "1" in
    if ltb max_sql_int per_page || ltb max_sql_int ((page - 1) * per_page)
    then raise exception
    else ok (
        json_response 200 (
          field "page" (number page) (
            field "per_page" (number per_page) (
              field "total" (number (count_models (select (is_wanted want_resolved) db.reports))) (
                field "items" (arr (queue_items (page_of per_page page (queue want_resolved db))))
                  end)))))
