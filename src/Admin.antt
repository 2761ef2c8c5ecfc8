-- ===== src/Admin.antt =====
-- handle_admin_action of src/tessera/handlers_admin.py.
pub mod Bans
pub mod Reports
use tessera_server.Common.{
  ℕ, String, Bool, true, false, not, Option, none, some, List, [], ◌∷◌, ◌++◌, Result, ok, raise,
  ◌>>=◌, ltb, str_eq, if◌then◌else◌,
}
use tessera_server.Common.Table.{update_where, upsert}
use tessera_server.Common.Text
use tessera_server.Json.{Json, null, str, field, end, number, get, Loaded}
use tessera_server.Http.{Response, json_response, error, Uncaught, exception}
use tessera_server.Db.{Db, Model, Visibility, public, unlisted, deleted, max_sql_int, find_model}
use tessera_server.Moderation.{set_visibility, resolve_reports}
use tessera_server.Social.Request.{Fault, bad_request, read_json, read_model_id, item, answer_fault}

-- ADMIN_ACTIONS
pub data Action : Type 0 where
  approve unlist delete ban : Action

abbrev pub action_name : Action → String
action_name approve = "approve"
action_name unlist = "unlist"
action_name delete = "delete"
action_name ban = "ban"

-- _ACTION_VISIBILITY
abbrev pub action_visibility : Action → Visibility
action_visibility approve = public
action_visibility unlist = unlisted
action_visibility delete = deleted
action_visibility ban = deleted

abbrev pub visibility_name : Visibility → String
visibility_name public = "public"
visibility_name unlisted = "unlisted"
visibility_name deleted = "deleted"

abbrev pub max_reason_chars : ℕ
max_reason_chars = 512

unfoldable pub read_action : Json → Result Fault Action
read_action (str s) =
    if str_eq s "approve"
    then ok approve
    else if str_eq s "unlist"
    then ok unlist
    else if str_eq s "delete"
    then ok delete
    else if str_eq s "ban"
    then ok ban
    else raise bad_request
read_action _ = raise bad_request

-- `payload.get("reason", "")`, stripped and cut
unfoldable pub read_reason : Option Json → Result Fault String
read_reason none = ok (Text.take max_reason_chars (Text.strip ""))
read_reason (some (str raw)) = ok (Text.take max_reason_chars (Text.strip raw))
read_reason (some _) = raise bad_request

pub record ActionRequest : Type 0 where
  pub model_id : ℕ
  pub action : Action
  pub reason : String

-- The `try` block of handle_admin_action.
unfoldable pub action_request : Loaded → Result Fault ActionRequest
unfolding read_json read_model_id read_action read_reason
action_request body = do
  payload ← read_json body ("model_id" ∷ "action" ∷ [])
  model_id ← read_model_id payload
  raw ← item "action" payload
  action ← read_action raw
  reason ← read_reason (get "reason" payload)
  ok (record { model_id = model_id; action = action; reason = reason })

-- The `if action == "ban"` block.
unfoldable pub ban_author : Db → String → String → ℕ → Db
ban_author db author reason now = record db {
  bans =
      upsert (λ b. str_eq b.key author) (record { key = author; reason = reason; created_at = now })
        (λ b. record b { reason = reason }) db.bans;
  models =
      update_where (λ m. str_eq m.author_key author) (λ m. record m { visibility = deleted })
        db.models;
}

abbrev pub is_unlist : Action → Bool
is_unlist unlist = true
is_unlist _ = false

abbrev pub is_ban : Action → Bool
is_ban ban = true
is_ban _ = false

-- The reports that the action closes, and the tables after that.
abbrev pub close_reports : Db → ActionRequest → ℕ → ℕ × Db
close_reports db q now = if is_unlist q.action then (0, db) else resolve_reports db q.model_id now

-- The `with` block, up to the log entry; the number of reports closed comes along.
unfoldable pub act_on : Db → Model → ActionRequest → ℕ → ℕ × Db
act_on db row q now =
    let shown = set_visibility db q.model_id (action_visibility q.action) in
    let (resolved, closed) = close_reports shown q now in
    (resolved, if is_ban q.action then ban_author closed row.author_key q.reason now else closed)

unfoldable pub log_action : Db → String → ActionRequest → ℕ → Db
log_action db admin_key q now = record db {
  admin_log =
      db.admin_log
      ++ (record {
        model_id = q.model_id;
        admin_key = admin_key;
        action = action_name q.action;
        reason = q.reason;
        created_at = now;
      })
        ∷ [];
}

-- handle_admin_action, behind the test of the admin key.
unfoldable pub handle_admin_action : Loaded → String → ℕ → Db → Result Uncaught Response × Db
handle_admin_action body admin_key now db = elim (action_request body) [
  | raise e ↦ (answer_fault e, db)
  | ok q ↦
      if ltb max_sql_int q.model_id
      then (raise exception, db)
      else elim (find_model q.model_id db.models) [
        | none ↦ (ok (error 404 "not_found"), db)
        | some row ↦
            let (resolved, acted) = act_on db row q now in
            let db' = log_action acted admin_key q now in
            (
              elim (find_model q.model_id db'.models) [
                | none ↦ raise exception
                | some m ↦ ok (
                    json_response 200 (
                      field "model_id" (number q.model_id) (
                        field "action" (str (action_name q.action)) (
                          field "visibility" (str (visibility_name m.visibility)) (
                            field "resolved" (number resolved) (
                              field "banned_key"
                                (if is_ban q.action then str row.author_key else null) end))))))
              ],
              db',
            )
      ]
]
