-- ===== src/ReportTool/Screen/Lines.antt =====
-- The lines that tools/tessera-reports prints, character by character.
use Prim.Native.Char.{code}
use tessera_server.Common.{
  ℕ, ◌<◌, zero, suc, ◌≡◌, refl, String, Bool, true, Option, none, some, List, [], ◌∷◌, ◌++◌, map,
  All, arith, Bool-cases, Option-cases, inl, inr, ltb, ◌==◌, str_eq, ◌/◌, ◌%◌,
}
use tessera_server.Common.Int.{ℤ, pos, negsuc}
use tessera_server.Common.Sort.{All-order_by}
use tessera_server.Common.Table.Laws.{fetch_one-All, All-select}
use tessera_server.Common.Text
use tessera_server.Bytes.Codec.{hex_digit}
use tessera_server.Bytes.Codec.Hex.{hex_digit_lower}
use tessera_server.Db.{
  Db, Model, Report, Visibility, public, unlisted, deleted, max_sql_int, find_model,
}
use tessera_server.Admin.{visibility_name}
use tessera_server.Admin.Reports.{QueueRow, queue}
use tessera_server.ReportTool.{ToolRow, tool_row, tool_rows, safe}
use tessera_server.ReportTool.Layout.{
  concat, spaces, pad_left, pad_right, digits_onto, count_text, int_text, list_line, list_lines,
  cmd_list, state_name, report_lines, reports_lines, model_lines, cmd_show, lines_of,
}
use tessera_server.ReportTool.Screen.{is_printable, safe_printable}

-- A terminal prints every character and interprets none.
unfoldable pub IsPlain : String → Type 0
IsPlain s = Text.all is_printable s ≡ true

-- The columns that are not cleaned before they are printed.
abbrev pub HasPlainColumns : Db → Type 0
HasPlainColumns db =
    All (λ (m : Model). IsPlain m.author_key × IsPlain m.kind) db.models
    × All (λ (r : Report). IsPlain r.reason × IsPlain r.reporter_key) db.reports

literal-IsPlain : (s : String) → Text.all is_printable s ≡ true → IsPlain s
unfolding IsPlain
literal-IsPlain s h = h

append-IsPlain : (s t : String) → IsPlain s → IsPlain t → IsPlain (Text.append s t)
unfolding IsPlain
append-IsPlain String.[] t h k = k
append-IsPlain (String.◌∷◌ c s) t h k = ground (arith, append-IsPlain s t)

nothing-IsPlain : IsPlain (concat [])
unfolding IsPlain concat
nothing-IsPlain = refl

part-IsPlain :
    (s : String) (parts : List String)
    → IsPlain s
    → IsPlain (concat parts)
    → IsPlain (concat (s ∷ parts))
unfolding concat
part-IsPlain s parts h k = append-IsPlain s (concat parts) h k

spaces-IsPlain : (n : ℕ) → IsPlain (spaces n)
unfolding IsPlain spaces
spaces-IsPlain zero = refl
spaces-IsPlain (suc n) = spaces-IsPlain n

take-IsPlain : (n : ℕ) (s : String) → IsPlain s → IsPlain (Text.take n s)
unfolding IsPlain
take-IsPlain zero s h = refl
take-IsPlain (suc n) String.[] h = refl
take-IsPlain (suc n) (String.◌∷◌ c s) h = ground (arith, take-IsPlain n s)

digit_printable : (d : ℕ) → d < 10 → is_printable (code (hex_digit d)) ≡ true
digit_printable d h = let lower = hex_digit_lower d (omega arith) in ground arith

digits-IsPlain : (fuel n : ℕ) (rest : String) → IsPlain rest → IsPlain (digits_onto fuel n rest)
unfolding IsPlain digits_onto
digits-IsPlain zero n rest h = h
digits-IsPlain (suc fuel) n rest h = elim (Bool-cases (ltb n 10)) [
  | inl e ↦ rw (e, digits_onto) (ground (arith, digit_printable n (ground arith)))
  | inr e ↦
      rw (e, digits_onto)
        (digits-IsPlain fuel (n / 10) (String.◌∷◌ (hex_digit (n % 10)) rest)
          (ground (arith, digit_printable (n % 10) (omega arith))))
]

count-IsPlain : (n : ℕ) → IsPlain (count_text n)
count-IsPlain n = digits-IsPlain (suc n) n "" (literal-IsPlain "" refl)

safe-IsPlain : (s : String) → IsPlain (safe s)
unfolding IsPlain
safe-IsPlain s = (safe_printable s).0

ruleset plain_parts = (
  literal-IsPlain, refl, append-IsPlain, spaces-IsPlain, take-IsPlain, count-IsPlain, safe-IsPlain,
)

pad_right-IsPlain : (n : ℕ) (s : String) → IsPlain s → IsPlain (pad_right n s)
pad_right-IsPlain n s h = search plain_parts

pad_left-IsPlain : (n : ℕ) (s : String) → IsPlain s → IsPlain (pad_left n s)
pad_left-IsPlain n s h = search plain_parts

int-IsPlain : (n : ℤ) → IsPlain (int_text n)
int-IsPlain (pos n) = search plain_parts
int-IsPlain (negsuc n) = search plain_parts

visibility-IsPlain : (v : Visibility) → IsPlain (visibility_name v)
visibility-IsPlain public = search plain_parts
visibility-IsPlain unlisted = search plain_parts
visibility-IsPlain deleted = search plain_parts

ruleset plain_lines = (
  plain_parts, nothing-IsPlain, part-IsPlain, pad_right-IsPlain, pad_left-IsPlain, int-IsPlain,
  visibility-IsPlain,
)

list_line-IsPlain : (row : ToolRow) → IsPlain row.visibility → IsPlain (list_line row)
list_line-IsPlain row h = search plain_lines depth 20 fits 3000

table-IsPlain : (rows : List QueueRow) → All IsPlain (map list_line (map tool_row rows))
table-IsPlain [] = tt
table-IsPlain (row ∷ rows) =
    (list_line-IsPlain (tool_row row) (visibility-IsPlain row.model.visibility), table-IsPlain rows)

All-append {ℓ κ} :
    {A : Type ℓ} (P : A → Type κ) (xs ys : List A) → All P xs → All P ys → All P (xs ++ ys)
All-append P [] ys h k = k
All-append P (x ∷ xs) ys h k = (h.0, All-append P xs ys h.1 k)

list_lines-IsPlain : (rows : List QueueRow) → All IsPlain (list_lines (map tool_row rows))
list_lines-IsPlain [] = (search plain_lines, tt)
list_lines-IsPlain (row ∷ rows) = (
  search plain_lines depth 20 fits 3000,
  All-append IsPlain (map list_line (map tool_row (row ∷ rows))) _ (table-IsPlain (row ∷ rows))
      (search plain_lines, (search plain_lines depth 20 fits 3000, tt)),
)

module _ (clock minute : ℕ → String) (c : (t : ℕ) → IsPlain (clock t))
    (d : (t : ℕ) → IsPlain (minute t)) where
  state-IsPlain : (at : Option ℕ) → IsPlain (state_name at)
  state-IsPlain none = search plain_parts
  state-IsPlain (some at) = elim (Bool-cases (at == 0)) [
    | inl e ↦ rw e (literal-IsPlain "open" refl)
    | inr e ↦ rw e (literal-IsPlain "resolved" refl)
  ]

  report_lines-IsPlain :
      (r : Report)
      → IsPlain r.reason
      → IsPlain r.reporter_key
      → All IsPlain (report_lines clock minute r)
  report_lines-IsPlain r h k = (
    search (plain_lines, state-IsPlain, d) depth 20 fits 3000,
    elim (Bool-cases (str_eq r.detail "")) [
      | inl e ↦ rw e tt
      | inr e ↦ rw e (search plain_lines, tt)
    ],
  )

  reports_lines-IsPlain :
      (rs : List Report)
      → All (λ (r : Report). IsPlain r.reason × IsPlain r.reporter_key) rs
      → All IsPlain (reports_lines clock minute rs)
  reports_lines-IsPlain [] h = tt
  reports_lines-IsPlain (r ∷ rs) h =
      All-append IsPlain (report_lines clock minute r) _ (report_lines-IsPlain r h.0.0 h.0.1)
        (reports_lines-IsPlain rs h.1)

  model_lines-IsPlain :
      (m : Model) → IsPlain m.author_key → IsPlain m.kind → All IsPlain (model_lines clock minute m)
  model_lines-IsPlain m h k = search (plain_lines, c) depth 20 fits 3000 parts 9

  cmd_show-IsPlain :
      (id : ℤ) (db : Db) → HasPlainColumns db → All IsPlain (lines_of (cmd_show clock minute db id))
  unfolding cmd_show
  cmd_show-IsPlain (negsuc n) db h = elim (Bool-cases (ltb max_sql_int n)) [
    | inl e ↦ rw (e, cmd_show) tt
    | inr e ↦ rw (e, cmd_show) (search plain_lines depth 20, tt)
  ]
  cmd_show-IsPlain (pos id) db h = elim (Bool-cases (ltb max_sql_int id)) [
    | inl e ↦ rw (e, cmd_show) tt
    | inr e ↦ elim (Option-cases (find_model id db.models)) [
      | inl gone ↦ rw (e, gone, cmd_show) (search plain_lines depth 20, tt)
      | inr (m, found) ↦
          let (key, kind) =
            fetch_one-All (λ (m : Model). m.id == id)
              (λ (m : Model). IsPlain m.author_key × IsPlain m.kind) _ m h.0 found in
          let P = λ (r : Report). IsPlain r.reason × IsPlain r.reporter_key in
          rw (e, found, cmd_show)
            (All-append IsPlain (model_lines clock minute m) _ (model_lines-IsPlain m key kind) (
              reports_lines-IsPlain _ (
                All-order_by _ P _
                  (All-select P (λ (r : Report). r.model_id == id) db.reports h.1))))
    ]
  ]

  -- If the keys, kinds and reasons in the tables have printable ASCII characters and tabs only, and
  -- so have the printed times, then so has every line of cmd_list without --json and of cmd_show,
  -- whatever the titles and details are.
  pub printed-IsPlain :
      (resolved : Bool) (id : ℤ) (db : Db)
      → HasPlainColumns db
      → All IsPlain (cmd_list resolved db) × All IsPlain (lines_of (cmd_show clock minute db id))
  unfolding cmd_list tool_rows
  printed-IsPlain resolved id db h =
      (list_lines-IsPlain (queue resolved db), cmd_show-IsPlain id db h)
