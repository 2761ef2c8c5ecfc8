-- ===== src/Moderation.antt =====
-- src/tessera/moderation.py: visibility transitions and the auto-hide rule.
use tessera_server.Common.{
  ℕ, suc, String, Bool, ◌&&◌, not, some, List, [], ◌∷◌, leb, ◌==◌, str_eq, if◌then◌else◌,
}
use tessera_server.Common.Table.{select, count_where, update_where, exists_where}
use tessera_server.Config.{TesseraConfig}
use tessera_server.Db.{Db, Visibility, unlisted, is_deleted, is_open}

-- COUNT(DISTINCT key): a key is counted at its last occurrence.
unfoldable pub count_distinct {ℓ} : {A : Type ℓ} → (A → String) → List A → ℕ
count_distinct key [] = 0
count_distinct key (x ∷ xs) =
    let rest = count_distinct key xs in
    if exists_where (λ y. str_eq (key y) (key x)) xs then rest else suc rest

unfoldable pub open_report_count : Db → ℕ → ℕ
unfolding count_distinct
open_report_count db model_id =
    count_distinct (λ r. r.reporter_key)
      (select (λ r. r.model_id == model_id && is_open r) db.reports)

-- set_visibility; its check of the name is in the type
unfoldable pub set_visibility : Db → ℕ → Visibility → Db
set_visibility db model_id visibility = record db {
  models =
      update_where (λ m. m.id == model_id && not (is_deleted m.visibility))
        (λ m. record m { visibility = visibility }) db.models;
}

-- resolve_reports: how many were closed, and the tables
unfoldable pub resolve_reports : Db → ℕ → ℕ → ℕ × Db
resolve_reports db model_id now = (
  count_where (λ r. r.model_id == model_id && is_open r) db.reports,
  record db {
    reports =
        update_where (λ r. r.model_id == model_id && is_open r)
          (λ r. record r { resolved_at = some now }) db.reports;
  },
)

-- apply_autohide: the count and whether the threshold is met
unfoldable pub apply_autohide : TesseraConfig → Db → ℕ → ℕ × Bool × Db
unfolding open_report_count set_visibility
apply_autohide cfg db model_id =
    let count = open_report_count db model_id in
    let hidden = leb cfg.report_autohide_threshold count in
    (count, hidden, if hidden then set_visibility db model_id unlisted else db)
