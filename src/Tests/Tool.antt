-- ===== src/Tests/Tool.antt =====
-- The theorems on tools/tessera-reports, at commands on a small gallery.
use tessera_server.Common.{ℕ, ◌≡◌, refl, ok, false, String, All, none, [], ◌∷◌}
use tessera_server.Common.Text
use tessera_server.Common.Int.{pos}
use tessera_server.Json.{Loaded, value, obj, field, end, number, str, get}
use tessera_server.Social.Request.{read_json, read_model_id}
use tessera_server.Admin.{
  ActionRequest, ban, action_request, read_action, read_reason, handle_admin_action,
}
use tessera_server.ReportTool.{apply_action}
use tessera_server.ReportTool.Agrees.{without_reasons, apply_action-handle_admin_action}
use tessera_server.ReportTool.Layout.{cmd_list, cmd_show, lines_of}
use tessera_server.ReportTool.Screen.Lines.{IsPlain, HasPlainColumns, printed-IsPlain}
use tessera_server.Db.{Db}
use tessera_server.Tests.Fixtures.{some_db, other_key}

abbrev banning : Loaded
banning = value (
    obj
      (field "model_id" (number 1) (field "action" (str "ban") (field "reason" (str "spam") end))))

abbrev some_ban : ActionRequest
some_ban = record { model_id = 1; action = ban; reason = "spam" }

banning-parsed : action_request banning ≡ ok some_ban
unfolding action_request read_json read_model_id read_action read_reason get Text.strip
banning-parsed = refl

-- The handler strips the reason of a body; the tool takes its own as it is.
apply_action-handle_admin_action_example :
    (without_reasons (apply_action some_db (pos 1) ban " spam " 2000).1
      ≡ without_reasons (handle_admin_action banning "cli" 2000 some_db).1)
    × ((apply_action some_db (pos 1) ban "spam" 2000).1
        ≡ (handle_admin_action banning "cli" 2000 some_db).1)
apply_action-handle_admin_action_example =
    apply_action-handle_admin_action banning some_ban " spam " 2000 some_db banning-parsed

-- A gallery with a report that the terminal would interpret.
abbrev reported_db : Db
reported_db = record some_db {
  reports =
      record {
        model_id = 1;
        reporter_key = other_key;
        reason = "spam";
        detail = "see \u{1b}[2J";
        created_at = 1000;
        resolved_at = none;
      }
      ∷ [];
}

abbrev some_time : ℕ → String
some_time t = "1970-01-01 00:16"

some_time-IsPlain : (t : ℕ) → IsPlain (some_time t)
unfolding IsPlain
some_time-IsPlain t = refl

reported_db-plain : HasPlainColumns reported_db
unfolding IsPlain
reported_db-plain = (((refl, refl), tt), ((refl, refl), tt))

printed-IsPlain_example :
    All IsPlain (cmd_list false reported_db)
    × All IsPlain (lines_of (cmd_show some_time some_time reported_db (pos 1)))
printed-IsPlain_example =
    printed-IsPlain some_time some_time some_time-IsPlain some_time-IsPlain false (pos 1)
      reported_db reported_db-plain
