-- ===== src/ReportTool/Agrees.antt =====
-- tools/tessera-reports beside src/tessera/handlers_admin.py.
use tessera_server.Common.{
  ℕ, ◌≡◌, ◌⊎◌, refl, sym, ap, ap₂, map, ◌++◌, ◌∙◌, String, false, some, List, [], ◌∷◌, ok, arith,
  ltb, ◌==◌, str_eq, Bool-cases, Option-cases, inl, inr, if◌then◌else◌, eq_iff,
}
use tessera_server.Common.Int.{pos, negsuc}
use tessera_server.Common.Table.{exists_where, count_where, delete_where, upsert}
use tessera_server.Json.{Loaded}
use tessera_server.Db.{Db, Ban, LogEntry, Model, is_banned, max_sql_int, find_model}
use tessera_server.Admin.{
  Action, approve, unlist, delete, ban, ActionRequest, action_request, act_on, ban_author,
  log_action, handle_admin_action,
}
use tessera_server.Admin.Bans.{handle_admin_action_done}
use tessera_server.ReportTool.{
  act_locally, apply_action, cmd_unban, cli_admin_key, was_not_banned, unbanned, exit_code, Command,
  act, unban, run_command,
}

act_locally_lem :
    (db : Db) (row : Model) (id : ℕ) (action : Action) (reason : String) (now : ℕ)
    → let q : ActionRequest = record { model_id = id; action = action; reason = reason } in
      act_locally db row id action reason now
      ≡ log_action (act_on db row q now).1 cli_admin_key q now
unfolding act_locally act_on ban_author log_action
act_locally_lem db row id approve reason now = refl
act_locally_lem db row id unlist reason now = refl
act_locally_lem db row id delete reason now = refl
act_locally_lem db row id ban reason now = refl

apply_action_done :
    (db : Db) (id : ℕ) (row : Model) (action : Action) (reason : String) (now : ℕ)
    → ltb max_sql_int id ≡ false
    → find_model id db.models ≡ some row
    → (apply_action db (pos id) action reason now).1 ≡ act_locally db row id action reason now
unfolding apply_action
apply_action_done db id row action reason now small found = ground arith

-- The tables without the reasons that bans and log entries give.
abbrev pub without_reasons : Db → Db
without_reasons db = record db {
  bans = map (λ (b : Ban). record b { reason = "" }) db.bans;
  admin_log = map (λ (e : LogEntry). record e { reason = "" }) db.admin_log;
}

bans_without_reasons :
    (key reason other : String) (now : ℕ) (bans : List Ban)
    → map
        (λ (b : Ban). record b { reason = "" })
        (upsert
          (λ b. str_eq b.key key)
          (record { key = key; reason = reason; created_at = now })
          (λ b. record b { reason = reason })
          bans)
      ≡ map
          (λ (b : Ban). record b { reason = "" })
          (upsert
            (λ b. str_eq b.key key)
            (record { key = key; reason = other; created_at = now })
            (λ b. record b { reason = other })
            bans)
bans_without_reasons key reason other now [] = refl
bans_without_reasons key reason other now (b ∷ bans) = elim (Bool-cases (str_eq b.key key)) [
  | inl e ↦ rw e refl
  | inr e ↦ rw e (
      ap (λ (rest : List Ban). record b { reason = "" } ∷ rest)
        (bans_without_reasons key reason other now bans))
]

log_without_reasons :
    (entry : LogEntry) (other : String) (log : List LogEntry)
    → map (λ (e : LogEntry). record e { reason = "" }) (log ++ entry ∷ [])
      ≡ map
          (λ (e : LogEntry). record e { reason = "" })
          (log ++ record entry { reason = other } ∷ [])
log_without_reasons entry other [] = refl
log_without_reasons entry other (e ∷ log) =
    ap (λ (rest : List LogEntry). record e { reason = "" } ∷ rest)
      (log_without_reasons entry other log)

act_locally_reasons :
    (db : Db) (row : Model) (id : ℕ) (action : Action) (reason other : String) (now : ℕ)
    → without_reasons (act_locally db row id action reason now)
      ≡ without_reasons (act_locally db row id action other now)
unfolding act_locally
act_locally_reasons db row id ban reason other now =
    ap₂
      (λ (bans : List Ban) (log : List LogEntry).
        record (without_reasons (act_locally db row id ban reason now)) {
          bans = bans;
          admin_log = log;
        })
      (bans_without_reasons row.author_key reason other now _) (log_without_reasons _ other _)
act_locally_reasons db row id approve reason other now =
    ap
      (λ (log : List LogEntry).
        record (without_reasons (act_locally db row id approve reason now)) { admin_log = log })
      (log_without_reasons _ other _)
act_locally_reasons db row id unlist reason other now =
    ap
      (λ (log : List LogEntry). record (without_reasons (act_locally db row id unlist reason now)) {
        admin_log = log;
      })
      (log_without_reasons _ other _)
act_locally_reasons db row id delete reason other now =
    ap
      (λ (log : List LogEntry). record (without_reasons (act_locally db row id delete reason now)) {
        admin_log = log;
      })
      (log_without_reasons _ other _)

apply_action_reasons :
    (db : Db) (id : ℕ) (action : Action) (reason other : String) (now : ℕ)
    → without_reasons (apply_action db (pos id) action reason now).1
      ≡ without_reasons (apply_action db (pos id) action other now).1
unfolding apply_action
apply_action_reasons db id action reason other now = elim (Bool-cases (ltb max_sql_int id)) [
  | inl big ↦ rw (big, apply_action) refl
  | inr small ↦ elim (Option-cases (find_model id db.models)) [
    | inl missing ↦ rw (small, missing, apply_action) refl
    | inr (row, found) ↦
        rw
          (
            apply_action_done db id row action reason now small found,
            apply_action_done db id row action other now small found,
          )
          (act_locally_reasons db row id action reason other now)
  ]
]

same_reason-handle_admin_action :
    (body : Loaded) (q : ActionRequest) (now : ℕ) (db : Db)
    → action_request body ≡ ok q
    → (apply_action db (pos q.model_id) q.action q.reason now).1
      ≡ (handle_admin_action body cli_admin_key now db).1
unfolding apply_action handle_admin_action
same_reason-handle_admin_action body q now db parsed =
    elim (Bool-cases (ltb max_sql_int q.model_id)) [
      | inl big ↦ ground arith
      | inr small ↦ elim (Option-cases (find_model q.model_id db.models)) [
        | inl missing ↦ ground arith
        | inr (row, found) ↦
            apply_action_done db q.model_id row q.action q.reason now small found
            ∙ (act_locally_lem db row q.model_id q.action q.reason now
                ∙ sym (
                    handle_admin_action_done body cli_admin_key now db q row parsed (ground arith)
                      found))
      ]
    ]

-- A command of the tool with any reason leaves the tables as POST /admin/action does when a key
-- called "cli" makes it with a body of the same model and action, but for the reasons of bans and log
-- entries; and with the reason that the handler makes of the one in the body, it leaves the same
-- reasons too.
pub apply_action-handle_admin_action :
    (body : Loaded) (q : ActionRequest) (reason : String) (now : ℕ) (db : Db)
    → action_request body ≡ ok q
    → (without_reasons (apply_action db (pos q.model_id) q.action reason now).1
        ≡ without_reasons (handle_admin_action body cli_admin_key now db).1)
      × ((apply_action db (pos q.model_id) q.action q.reason now).1
          ≡ (handle_admin_action body cli_admin_key now db).1)
apply_action-handle_admin_action body q reason now db parsed =
    let same = same_reason-handle_admin_action body q now db parsed in
    (
      apply_action_reasons db q.model_id q.action reason q.reason now ∙ ap without_reasons same,
      same,
    )

-- A command writes nothing, or acts on a row as the handler does, or only lifts bans.
pub run_command_cases :
    (c : Command) (now : ℕ) (db : Db)
    → ((run_command c now db).1 ≡ db)
      ⊎ ((q : ActionRequest) × (row : Model) × ((run_command c now db).1
            ≡ log_action (act_on db row q now).1 cli_admin_key q now))
      ⊎ ((key : String) × ((run_command c now db).1
            ≡ record db { bans = delete_where (λ b. str_eq b.key key) db.bans }))
unfolding run_command apply_action cmd_unban
run_command_cases (unban key) now db = inr (inr (key, refl))
run_command_cases (act (negsuc n) action reason) now db = inl refl
run_command_cases (act (pos id) action reason) now db = elim (Bool-cases (ltb max_sql_int id)) [
  | inl big ↦ inl (ground arith)
  | inr small ↦ elim (Option-cases (find_model id db.models)) [
    | inl missing ↦ inl (ground arith)
    | inr (row, found) ↦ inr (
        inl (
          record { model_id = id; action = action; reason = reason },
          row,
          apply_action_done db id row action reason now small found
              ∙ act_locally_lem db row id action reason now,
        ))
  ]
]

is_banned-unban :
    (key : String) (bans : List Ban) (other : String)
    → exists_where (λ b. str_eq b.key other) (delete_where (λ b. str_eq b.key key) bans)
      ≡ (if str_eq key other then false else exists_where (λ b. str_eq b.key other) bans)
is_banned-unban key [] other = ground arith
is_banned-unban key (b ∷ bans) other =
    ground (
      arith,
      eq_iff b.key key,
      eq_iff b.key other,
      eq_iff key other,
      is_banned-unban key bans other,
    )

-- cmd_unban lifts the ban of the key, if there is one, and of no other key; its exit code says
-- whether there was one; and it touches nothing but the bans: models that the ban deleted stay so.
pub cmd_unban_lifts :
    (db : Db) (key other : String)
    → (is_banned (cmd_unban db key).1 other
        ≡ (if str_eq key other then false else is_banned db other))
      × ((exit_code (cmd_unban db key).0 == 0) ≡ is_banned db key)
      × ((cmd_unban db key).1 ≡ record db { bans = (cmd_unban db key).1.bans })
unfolding cmd_unban is_banned
cmd_unban_lifts db key other = (is_banned-unban key db.bans other, counted, refl)
  where
    none_counted :
        (bans : List Ban)
        → (exit_code
              (if count_where (λ b. str_eq b.key key) bans == 0 then was_not_banned else unbanned)
            == 0)
          ≡ exists_where (λ b. str_eq b.key key) bans
    none_counted [] = refl
    none_counted (b ∷ bans) = ground (arith, none_counted bans)

    counted : ((exit_code (cmd_unban db key).0 == 0) ≡ is_banned db key)
    counted = none_counted db.bans
