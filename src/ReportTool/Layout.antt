-- ===== src/ReportTool/Layout.antt =====
-- The lines that cmd_list and cmd_show of tools/tessera-reports print.
pub mod Digits
use tessera_server.Common.{
  ℕ, zero, suc, ◌-◌, ◌/◌, ◌%◌, String, Bool, true, false, not, Option, none, some, List, [], ◌∷◌,
  ◌++◌, map, Result, ok, raise, ltb, leb, ◌==◌, str_eq, length, if◌then◌else◌,
}
use tessera_server.Common.Int.{ℤ, pos, negsuc}
use tessera_server.Common.Sort.{order_by}
use tessera_server.Common.Table.{select}
use tessera_server.Common.Text
use tessera_server.Bytes.Codec.{hex_digit}
use tessera_server.Http.{Uncaught, exception}
use tessera_server.Db.{Db, Model, Report, max_sql_int, find_model}
use tessera_server.Admin.{visibility_name}
use tessera_server.Admin.Reports.{join}
use tessera_server.ReportTool.{ToolRow, tool_rows, safe}

-- The parts of an f-string, one after another.
unfoldable pub concat : List String → String
concat [] = ""
concat (s ∷ parts) = Text.append s (concat parts)

unfoldable pub spaces : ℕ → String
spaces zero = ""
spaces (suc n) = String.◌∷◌ " " (spaces n)

-- {s:<n}
abbrev pub pad_right : ℕ → String → String
pad_right n s = Text.append s (spaces (n - Text.length s))

-- {s:>n}
abbrev pub pad_left : ℕ → String → String
pad_left n s = Text.append (spaces (n - Text.length s)) s

-- The decimal digits of n before `rest`; n + 1 rounds are enough.
unfoldable pub digits_onto : ℕ → ℕ → String → String
digits_onto zero n rest = rest
digits_onto (suc fuel) n rest =
    let more = digits_onto fuel (n / 10) (String.◌∷◌ (hex_digit (n % 10)) rest) in
    if ltb n 10 then String.◌∷◌ (hex_digit n) rest else more

-- str(n)
abbrev pub count_text : ℕ → String
count_text n = digits_onto (suc n) n ""

abbrev pub int_text : ℤ → String
int_text (pos n) = count_text n
int_text (negsuc n) = Text.append "-" (count_text (suc n))

-- A row of the table of cmd_list.
abbrev pub list_line : ToolRow → String
list_line row = concat (
    pad_left 6 (count_text row.model_id)
    ∷ "  "
    ∷ pad_left 3 (count_text row.report_count)
    ∷ "  "
    ∷ pad_right 9 row.visibility
    ∷ "  "
    ∷ pad_right 28 (Text.take 28 (safe (join "," row.reasons)))
    ∷ "  "
    ∷ Text.take 40 (safe row.title)
    ∷ [])

-- What cmd_list prints of these rows without --json.
abbrev pub list_lines : List ToolRow → List String
list_lines [] = "no open reports" ∷ []
list_lines (row ∷ rows) =
    concat (
        pad_left 6 "id"
        ∷ "  "
        ∷ pad_left 3 "n"
        ∷ "  "
        ∷ pad_right 9 "state"
        ∷ "  "
        ∷ pad_right 28 "reasons"
        ∷ "  title"
        ∷ [])
      ∷ map list_line (row ∷ rows)
    ++ ""
      ∷ concat (
          count_text (length (row ∷ rows))
          ∷ " model(s). `tessera-reports show <id>` for detail."
          ∷ [])
      ∷ []

-- cmd_list without --json
unfoldable pub cmd_list : Bool → Db → List String
cmd_list resolved db = list_lines (tool_rows resolved db)

-- "resolved" if row["resolved_at"] else "open"
abbrev pub state_name : Option ℕ → String
state_name none = "open"
state_name (some at) = if at == 0 then "open" else "resolved"

module _ (clock minute : ℕ → String) where
  -- A report in cmd_show; `minute` is time.strftime with the format of the reports.
  abbrev pub report_lines : Report → List String
  report_lines r =
      concat (
        "  ["
        ∷ pad_right 8 (state_name r.resolved_at)
        ∷ "] "
        ∷ minute r.created_at
        ∷ "  "
        ∷ pad_right 8 r.reason
        ∷ "  "
        ∷ Text.take 16 r.reporter_key
        ∷ "..."
        ∷ [])
      ∷ (if str_eq r.detail "" then [] else Text.append "             " (safe r.detail) ∷ [])

  abbrev pub reports_lines : List Report → List String
  reports_lines [] = []
  reports_lines (r ∷ rs) = report_lines r ++ reports_lines rs

  -- The lines on the model; `clock` is time.strftime with the format of the upload.
  abbrev pub model_lines : Model → List String
  model_lines m =
      concat ("model    " ∷ count_text m.id ∷ [])
      ∷ concat ("title    " ∷ safe m.title ∷ [])
      ∷ concat ("author   " ∷ m.author_key ∷ [])
      ∷ concat (
          "kind     "
          ∷ m.kind
          ∷ "   visibility "
          ∷ visibility_name m.visibility
          ∷ "   score "
          ∷ int_text m.score
          ∷ [])
      ∷ concat
          ("bytes    model=" ∷ count_text m.model_bytes ∷ " thumb=" ∷ count_text m.thumb_bytes ∷ [])
      ∷ concat ("uploaded " ∷ clock m.created_at ∷ " UTC" ∷ [])
      ∷ ""
      ∷ "reports:"
      ∷ []

  -- The exit code and the lines of cmd_show.
  unfoldable pub cmd_show : Db → ℤ → Result Uncaught (ℕ × List String)
  cmd_show db (negsuc n) =
      if ltb max_sql_int n
      then raise exception
      else ok (1, concat ("no model with id " ∷ int_text (negsuc n) ∷ []) ∷ [])
  cmd_show db (pos id) =
      if ltb max_sql_int id then raise exception else elim (find_model id db.models) [
        | none ↦ ok (1, concat ("no model with id " ∷ count_text id ∷ []) ∷ [])
        | some m ↦ ok (
          0,
          model_lines m
              ++ reports_lines (
                  order_by (λ (a b : Report). leb a.created_at b.created_at)
                    (select (λ (r : Report). r.model_id == id) db.reports)),
        )
      ]

-- What cmd_show prints on either stream: nothing if it raises.
abbrev pub lines_of : Result Uncaught (ℕ × List String) → List String
lines_of (raise x) = []
lines_of (ok (code, lines)) = lines
