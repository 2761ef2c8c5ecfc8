-- ===== src/ReportTool.antt =====
-- tools/tessera-reports: the moderation queue on the command line. What is printed is kept as a
-- value; argparse and the opening of the database are left out.
pub mod Agrees
pub mod Interleaved
pub mod Layout
pub mod Screen
use Prim.Native.Char.{Char, code}
use tessera_server.Common.{
  ℕ, String, Bool, true, false, ◌&&◌, ◌||◌, not, Option, none, some, List, [], ◌∷◌, ◌++◌, Result,
  ok, raise, ltb, leb, ◌==◌, str_eq, map, if◌then◌else◌,
}
use tessera_server.Common.Int.{ℤ, pos, negsuc}
use tessera_server.Common.Table.{delete_where, count_where, update_where, upsert}
use tessera_server.Moderation.{set_visibility, resolve_reports}
use tessera_server.Http.{Uncaught, exception}
use tessera_server.Db.{Db, Model, Visibility, public, unlisted, deleted, max_sql_int, find_model}
use tessera_server.Admin.{
  Action, approve, unlist, delete, ban, action_name, is_ban, visibility_name,
}
use tessera_server.Admin.Reports.{QueueRow, queue}

-- What a command prints last, each with its exit code.
pub data Printed : Type 0 where
  no_such_model was_not_banned unbanned : Printed
  acted : Visibility → Option String → Printed

abbrev pub exit_code : Printed → ℕ
exit_code no_such_model = 1
exit_code was_not_banned = 1
exit_code unbanned = 0
exit_code (acted v banned) = 0

-- CLI_ADMIN_KEY
abbrev pub cli_admin_key : String
cli_admin_key = "cli"

-- One character of `safe`.
abbrev pub safe_char : Char → Char
safe_char c = if (leb 0x20 (code c) && ltb (code c) 0x7F) || code c == 0x09 then c else "?"

unfoldable pub safe : String → String
safe String.[] = String.[]
safe (String.◌∷◌ c s) = String.◌∷◌ (safe_char c) (safe s)

-- A row of queue_rows: the columns that the tool reads.
pub record ToolRow : Type 0 where
  pub model_id : ℕ
  pub title : String
  pub author_key : String
  pub visibility : String
  pub report_count : ℕ
  pub reasons : List String
  pub last_report_at : ℕ

-- The columns of queue_rows, and the sorted reasons of cmd_list.
abbrev pub tool_row : QueueRow → ToolRow
tool_row row = record {
  model_id = row.model.id;
  title = row.model.title;
  author_key = row.model.author_key;
  visibility = visibility_name row.model.visibility;
  report_count = row.report_count;
  reasons = row.reasons;
  last_report_at = row.last_report_at;
}

-- queue_rows, whose statement is that of GET /admin/reports with fewer columns and no LIMIT
unfoldable pub tool_rows : Bool → Db → List ToolRow
tool_rows resolved db = map tool_row (queue resolved db)

-- _ACTION_VISIBILITY
abbrev tool_visibility : Action → Visibility
tool_visibility approve = public
tool_visibility unlist = unlisted
tool_visibility delete = deleted
tool_visibility ban = deleted

-- `if action != "unlist"`
abbrev close_unless_parked : Action → Db → ℕ → ℕ → Db
close_unless_parked unlist db id now = db
close_unless_parked _ db id now = (resolve_reports db id now).1

-- `if action == "ban"`
abbrev ban_if_asked : Action → Db → String → String → ℕ → Db
ban_if_asked ban db author reason now = record db {
  bans =
      upsert (λ b. str_eq b.key author) (record { key = author; reason = reason; created_at = now })
        (λ b. record b { reason = reason }) db.bans;
  models =
      update_where (λ m. str_eq m.author_key author) (λ m. record m { visibility = deleted })
        db.models;
}
ban_if_asked _ db author reason now = db

-- The `with` block of apply_action.
unfoldable pub act_locally : Db → Model → ℕ → Action → String → ℕ → Db
act_locally db row id action reason now =
    let shown = set_visibility db id (tool_visibility action) in
    let closed = close_unless_parked action shown id now in
    let banned = ban_if_asked action closed row.author_key reason now in
    record banned {
      admin_log =
          banned.admin_log
          ++ (record {
            model_id = id;
            admin_key = cli_admin_key;
            action = action_name action;
            reason = reason;
            created_at = now;
          })
            ∷ [];
    }

-- What is printed of the row that is there afterwards, whose absence would be a TypeError.
abbrev print_final : Option Model → Option String → Result Uncaught Printed
print_final none banned = raise exception
print_final (some m) banned = ok (acted m.visibility banned)

-- apply_action, for an integer of any size: sqlite3 raises OverflowError if it does not fit 64 signed
-- bits.
unfoldable pub apply_action : Db → ℤ → Action → String → ℕ → Result Uncaught Printed × Db
apply_action db (negsuc n) action reason now =
    (if ltb max_sql_int n then raise exception else ok no_such_model, db)
apply_action db (pos id) action reason now =
    if ltb max_sql_int id then (raise exception, db) else elim (find_model id db.models) [
      | none ↦ (ok no_such_model, db)
      | some row ↦
          let db' = act_locally db row id action reason now in
          (
            print_final (find_model id db'.models)
                (if is_ban action then some row.author_key else none),
            db',
          )
    ]

-- cmd_unban
unfoldable pub cmd_unban : Db → String → Printed × Db
cmd_unban db key = (
  if count_where (λ b. str_eq b.key key) db.bans == 0 then was_not_banned else unbanned,
  record db { bans = delete_where (λ b. str_eq b.key key) db.bans },
)

-- A command that writes.
pub data Command : Type 0 where
  act : ℤ → Action → String → Command
  unban : String → Command

unfoldable pub run_command : Command → ℕ → Db → Result Uncaught Printed × Db
run_command (act id action reason) now db = apply_action db id action reason now
run_command (unban key) now db = let (printed, db') = cmd_unban db key in (ok printed, db')
