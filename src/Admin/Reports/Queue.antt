-- ===== src/Admin/Reports/Queue.antt =====
-- The moderation queue of src/tessera/handlers_admin.py against the rule of src/tessera/moderation.py.
use tessera_server.Common.{
  ℕ, ◌<◌, ◌≡◌, refl, sym, ap, ◌∙◌, String, Bool, true, false, ◌&&◌, ◌||◌, not, List, [], ◌∷◌, ◌==◌,
  ltb, arith, All, Bool-cases, inl, inr,
}
use tessera_server.Common.Table.{select, exists_where, count_where}
use tessera_server.Common.Sort.{IsOrdered, All-order_by, order_by-IsOrdered, count_where-order_by}
use tessera_server.Db.{Db, Model, Report, is_open}
use tessera_server.Moderation.{count_distinct, open_report_count}
use tessera_server.Admin.Reports.{is_wanted, QueueRow, queue_row, queue_rows, more_reported, queue}

module _ {A : Type 0} (p q : A → Bool) where
  select-select : (xs : List A) → select p (select q xs) ≡ select (λ x. p x && q x) xs
  select-select [] = refl
  select-select (x ∷ xs) = ground (arith, select-select xs)

exists_where-select :
    {A : Type 0} (p q : A → Bool) (xs : List A)
    → exists_where p (select q xs) ≡ exists_where (λ x. p x && q x) xs
exists_where-select p q [] = refl
exists_where-select p q (x ∷ xs) = ground (arith, exists_where-select p q xs)

count_distinct-cons :
    {A : Type 0} (key : A → String) (x : A) (xs : List A) → 0 < count_distinct key (x ∷ xs)
unfolding count_distinct
count_distinct-cons key x [] = omega arith
count_distinct-cons key x (y ∷ xs) = ground (arith, count_distinct-cons key y xs)

count_distinct_positive :
    {A : Type 0} (key : A → String) (q : A → Bool) (xs : List A)
    → ltb 0 (count_distinct key (select q xs)) ≡ exists_where q xs
unfolding count_distinct
count_distinct_positive key q [] = refl
count_distinct_positive key q (x ∷ xs) = elim (Bool-cases (q x)) [
  | inl e ↦ rw e (ground (arith, count_distinct-cons key x (select q xs)))
  | inr e ↦ rw e (count_distinct_positive key q xs)
]

-- The reports that are open.
abbrev open_reports : Db → List Report
open_reports db = select (is_wanted false) db.reports

queue_row_count :
    (db : Db) (m : Model) → (queue_row (open_reports db) m).report_count ≡ open_report_count db m.id
unfolding queue_row open_report_count
queue_row_count db m =
    ap (λ (rows : List Report). count_distinct (λ r. r.reporter_key) rows)
      (select-select (λ r. r.model_id == m.id) is_open db.reports)

is_queued_lem :
    (db : Db) (m : Model)
    → exists_where (λ r. r.model_id == m.id) (open_reports db) ≡ ltb 0 (open_report_count db m.id)
unfolding open_report_count
is_queued_lem db m =
    exists_where-select (λ r. r.model_id == m.id) is_open db.reports
    ∙ sym (
        count_distinct_positive (λ r. r.reporter_key) (λ r. r.model_id == m.id && is_open r)
          db.reports)

-- One row for each model of the table with the id that has an open report.
queue_rows_once :
    (db : Db) (id : ℕ) (models : List Model)
    → count_where (λ row. row.model.id == id) (queue_rows (open_reports db) models)
      ≡ count_where (λ m. m.id == id && ltb 0 (open_report_count db m.id)) models
unfolding queue_row
queue_rows_once db id [] = refl
queue_rows_once db id (m ∷ models) =
    elim (Bool-cases (exists_where (λ r. r.model_id == m.id) (open_reports db))) [
      | inl e ↦ rw (sym (is_queued_lem db m), e) (ground (arith, queue_rows_once db id models))
      | inr e ↦ rw (sym (is_queued_lem db m), e) (ground (arith, queue_rows_once db id models))
    ]

-- The number in the row is the one that the auto-hide rule counts.
abbrev pub IsCounted : Db → QueueRow → Type 0
IsCounted db row = row.report_count ≡ open_report_count db row.model.id

queue_rows-IsCounted :
    (db : Db) (models : List Model) → All (IsCounted db) (queue_rows (open_reports db) models)
unfolding queue_row
queue_rows-IsCounted db [] = tt
queue_rows-IsCounted db (m ∷ models) =
    elim (Bool-cases (exists_where (λ r. r.model_id == m.id) (open_reports db))) [
      | inl e ↦ rw e (queue_row_count db m, queue_rows-IsCounted db models)
      | inr e ↦ rw e (queue_rows-IsCounted db models)
    ]

more_reported_total : (a b : QueueRow) → more_reported a b ≡ false → more_reported b a ≡ true
more_reported_total a b h = ground arith

more_numbers :
    (ca la cb lb cc lc : ℕ)
    → (ltb cb ca || (ca == cb && not (ltb la lb))) ≡ true
    → (ltb cc cb || (cb == cc && not (ltb lb lc))) ≡ true
    → (ltb cc ca || (ca == cc && not (ltb la lc))) ≡ true
more_numbers ca la cb lb cc lc h k = ground arith

-- The moderation queue has one row for each model with an open report, and no other; the number of
-- reporters that it shows is the one that the auto-hide rule compares with its threshold; and the
-- rows stand by that number, the most reported first.
pub queue_agrees :
    (db : Db)
    → ((id : ℕ)
        → count_where (λ row. row.model.id == id) (queue false db)
          ≡ count_where (λ m. m.id == id && ltb 0 (open_report_count db m.id)) db.models)
      × All (IsCounted db) (queue false db)
      × IsOrdered more_reported (queue false db)
unfolding queue
queue_agrees db =
    let rows = queue_rows (open_reports db) db.models in
    (
      (λ id.
          count_where-order_by more_reported (λ row. row.model.id == id) rows
          ∙ queue_rows_once db id db.models),
      All-order_by more_reported (IsCounted db) rows (queue_rows-IsCounted db db.models),
      order_by-IsOrdered more_reported more_reported_total
          (λ a b c.
            more_numbers a.report_count a.last_report_at b.report_count b.last_report_at
              c.report_count c.last_report_at)
          rows,
    )
