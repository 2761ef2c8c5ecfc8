-- ===== src/Admin/Bans.antt =====
-- Bans and deletions by handle_admin_action of src/tessera/handlers_admin.py.
use tessera_server.Common.{
  ℕ, ◌≤◌, ◌≡◌, ◌⊎◌, refl, sym, subst, String, Bool, true, false, ◌&&◌, not, inl, inr, some, ok,
  arith, ltb, ◌==◌, str_eq, eq_refl, Bool-cases, Result-cases, Option-cases,
}
use tessera_server.Common.Table.{exists_where}
use tessera_server.Common.Table.Laws.{
  exists_where-upsert, select-update_none, exists_where-update_none, exists_where-update_keeps,
}
use tessera_server.Json.{Loaded}
use tessera_server.Db.{
  Db, Model, Visibility, is_deleted, is_open, is_banned, max_sql_int, find_model,
}
use tessera_server.Moderation.{count_distinct, open_report_count, set_visibility, resolve_reports}
use tessera_server.Admin.{
  ban, action_visibility, ActionRequest, action_request, ban_author, act_on, log_action,
  handle_admin_action, close_reports, is_ban, is_unlist,
}

-- Is this a model of `key` that still exists?
abbrev pub is_live_of : String → Model → Bool
is_live_of key m = str_eq m.author_key key && not (is_deleted m.visibility)

-- Is this the model `id`, and does it still exist?
abbrev pub is_live : ℕ → Model → Bool
is_live id m = m.id == id && not (is_deleted m.visibility)

-- Either nothing is written, or the action on a model that the index has.
pub handle_admin_action_cases :
    (body : Loaded) (admin_key : String) (now : ℕ) (db : Db)
    → ((handle_admin_action body admin_key now db).1 ≡ db)
      ⊎ ((q : ActionRequest) × (row : Model) × ((handle_admin_action body admin_key now db).1
            ≡ log_action (act_on db row q now).1 admin_key q now))
unfolding handle_admin_action
handle_admin_action_cases body admin_key now db = elim (Result-cases (action_request body)) [
  | inl (e, failed) ↦ inl (ground arith)
  | inr (q, parsed) ↦ elim (Bool-cases (ltb max_sql_int q.model_id)) [
    | inl big ↦ inl (ground arith)
    | inr small ↦ elim (Option-cases (find_model q.model_id db.models)) [
      | inl missing ↦ inl (ground arith)
      | inr (row, found) ↦ inr (q, row, ground arith)
    ]
  ]
]

pub handle_admin_action_done :
    (body : Loaded) (admin_key : String) (now : ℕ) (db : Db) (q : ActionRequest) (row : Model)
    → action_request body ≡ ok q
    → q.model_id ≤ max_sql_int
    → find_model q.model_id db.models ≡ some row
    → (handle_admin_action body admin_key now db).1
      ≡ log_action (act_on db row q now).1 admin_key q now
unfolding handle_admin_action
handle_admin_action_done body admin_key now db q row parsed fits found = ground arith

module _ (db : Db) (row : Model) (q : ActionRequest) (now : ℕ) where
  ban_key-banned : q.action ≡ ban → is_banned (act_on db row q now).1 row.author_key ≡ true
  unfolding act_on ban_author is_banned
  ban_key-banned banning = rw banning (
      exists_where-upsert (λ b. str_eq b.key row.author_key) _ _ (eq_refl row.author_key) (λ b e. e)
        _)

  ban_models-deleted :
      q.action ≡ ban
      → exists_where (is_live_of row.author_key) (act_on db row q now).1.models ≡ false
  unfolding act_on ban_author
  ban_models-deleted banning = rw banning (
      exists_where-update_none (λ m. str_eq m.author_key row.author_key) (is_live_of row.author_key)
        _ (λ m e. ground arith) (λ m e. ground arith) _)

  ban_reports-closed : q.action ≡ ban → open_report_count (act_on db row q now).1 q.model_id ≡ 0
  unfolding act_on ban_author resolve_reports set_visibility open_report_count count_distinct
  ban_reports-closed banning =
      rw
        (
          banning,
          select-update_none (λ r. r.model_id == q.model_id && is_open r)
              (λ r. record r { resolved_at = some now }) (λ r e. ground arith) db.reports,
        )
        refl

  shown_deleted :
      (id : ℕ) (v : Visibility)
      → exists_where (is_live id) db.models ≡ false
      → exists_where (is_live id) (set_visibility db q.model_id v).models ≡ false
  unfolding set_visibility
  shown_deleted id v gone =
      exists_where-update_keeps (λ m. m.id == q.model_id && not (is_deleted m.visibility))
        (is_live id) _ (λ m e f. ground arith) db.models gone

  pub act_on_deleted :
      (id : ℕ)
      → exists_where (is_live id) db.models ≡ false
      → exists_where (is_live id) (act_on db row q now).1.models ≡ false
  unfolding act_on ban_author resolve_reports
  act_on_deleted id gone =
      let shown = set_visibility db q.model_id (action_visibility q.action) in
      let kept : exists_where (is_live id) (close_reports shown q now).1.models ≡ false =
        elim (Bool-cases (is_unlist q.action)) [
          | inl e ↦ rw e (shown_deleted id (action_visibility q.action) gone)
          | inr e ↦ rw e (shown_deleted id (action_visibility q.action) gone)
        ] in
      elim (Bool-cases (is_ban q.action)) [
        | inl e ↦ rw e (
            exists_where-update_keeps (λ m. str_eq m.author_key row.author_key) (is_live id) _
              (λ m f g. ground arith) _ kept)
        | inr e ↦ rw e kept
      ]

-- A ban of the author of a model, by its three effects on the index: the author's key is banned,
-- no model by that author still exists, and the model has no report left open.
pub handle_admin_action_ban :
    (body : Loaded) (admin_key : String) (now : ℕ) (db : Db) (q : ActionRequest) (row : Model)
    → action_request body ≡ ok q
    → q.action ≡ ban
    → q.model_id ≤ max_sql_int
    → find_model q.model_id db.models ≡ some row
    → (is_banned (handle_admin_action body admin_key now db).1 row.author_key ≡ true)
      × (exists_where
            (is_live_of row.author_key)
            (handle_admin_action body admin_key now db).1.models
          ≡ false)
      × (open_report_count (handle_admin_action body admin_key now db).1 q.model_id ≡ 0)
unfolding log_action is_banned open_report_count
handle_admin_action_ban body admin_key now db q row parsed banning fits found =
    subst
      (λ (w : Db).
        (is_banned w row.author_key ≡ true)
        × (exists_where (is_live_of row.author_key) w.models ≡ false)
        × (open_report_count w q.model_id ≡ 0))
      (sym (handle_admin_action_done body admin_key now db q row parsed fits found))
      (
        ban_key-banned db row q now banning,
        ban_models-deleted db row q now banning,
        ban_reports-closed db row q now banning,
      )

-- A model that no longer exists stays so: no admin action, on any body, brings it back.
pub handle_admin_action_deleted :
    (body : Loaded) (admin_key : String) (now : ℕ) (db : Db) (id : ℕ)
    → exists_where (is_live id) db.models ≡ false
    → exists_where (is_live id) (handle_admin_action body admin_key now db).1.models ≡ false
unfolding log_action
handle_admin_action_deleted body admin_key now db id gone =
    elim (handle_admin_action_cases body admin_key now db) [
      | inl same ↦ subst (λ (w : Db). exists_where (is_live id) w.models ≡ false) (sym same) gone
      | inr (q, row, done) ↦
          subst (λ (w : Db). exists_where (is_live id) w.models ≡ false) (sym done)
            (act_on_deleted db row q now id gone)
    ]
