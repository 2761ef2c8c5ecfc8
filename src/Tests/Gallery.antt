-- ===== src/Tests/Gallery.antt =====
-- The theorems on votes, reports and admin actions, at a gallery of one model.
use tessera_server.Common.{
  ℕ, ◌+◌, ◌≤◌, ◌<◌, ◌≡◌, ◌≢◌, ◌⊎◌, refl, [], ◌∷◌, ok, arith, true, false, Bool, some,
}
use tessera_server.Common.Int.{pos, negsuc, ◌+ℤ◌}
use tessera_server.Common.Table.{exists_where}
use tessera_server.Common.Text.{strip}
use tessera_server.Config.{default_config}
use tessera_server.Json.{Loaded, value, obj, field, end, str, int, number, boolean, get}
use tessera_server.Http.{json_response}
use tessera_server.Db.{Db, Model, deleted, find_model, is_banned}
use tessera_server.Social.Request.{require_visible_model, read_json, read_model_id}
use tessera_server.Social.Voting.{
  vote_request, vote_value, record_vote, recount, your_vote, handle_vote, sum_values,
}
use tessera_server.Social.Voting.Tally.{IsTallied, AllTallied, VotesKeyed}
use tessera_server.Social.Voting.Score.{vote_counted}
use tessera_server.Social.Voting.Interleaving.{
  World, Run, here, next, vote, count, quiescent-AllTallied, vote_not_atomic,
}
use tessera_server.Social.Reporting.{ReportRequest, file_report}
use tessera_server.Social.Reporting.Threshold.{ReportsKeyed, is_shown, file_report_hides}
use tessera_server.Social.Favouriting.{favourite_request}
use tessera_server.Moderation.{open_report_count}
use tessera_server.Admin.{
  ActionRequest, ban, action_request, read_action, read_reason, handle_admin_action,
}
use tessera_server.Admin.Bans.{is_live_of, handle_admin_action_ban}
use tessera_server.Tests.Fixtures.{some_key, other_key, some_model, some_db}

abbrev up_vote : Loaded
up_vote = value (obj (field "model_id" (number 1) (field "value" (number 1) end)))

up_vote-read : vote_request up_vote ≡ ok (1, pos 1)
unfolding vote_request read_json read_model_id vote_value get
up_vote-read = refl

some_db-AllTallied : AllTallied some_db
unfolding sum_values
some_db-AllTallied = (record { score = refl; ups = refl; downs = refl }, tt)

some_db-VotesKeyed : VotesKeyed some_db
some_db-VotesKeyed i k = omega arith

some_db-ReportsKeyed : ReportsKeyed some_db
some_db-ReportsKeyed i k = omega arith

some_model-found : require_visible_model some_db 1 ≡ some some_model
unfolding require_visible_model
some_model-found = refl

other_key-free : is_banned some_db other_key ≡ false
unfolding is_banned
other_key-free = refl

vote_counted_example :
    (m' : Model) × (find_model 1 (handle_vote up_vote other_key 2000 some_db).1.models ≡ some m')
    × ((handle_vote up_vote other_key 2000 some_db).0
        ≡ ok (
            json_response 200 (
              field "model_id" (number 1) (
                field "score" (int m'.score) (
                  field "up_votes" (number m'.up_votes) (
                    field "down_votes"
                      (number m'.down_votes)
                      (field "your_vote" (int (pos 1)) end)))))))
    × (m'.score +ℤ your_vote some_db 1 other_key ≡ some_model.score +ℤ pos 1)
vote_counted_example =
    vote_counted up_vote other_key 2000 some_db 1 (pos 1) some_model up_vote-read other_key-free
      (omega arith) some_model-found some_db-AllTallied some_db-VotesKeyed

abbrev quiet : Db → World
quiet db = record { db = db; owed = [] }

abbrev after_two : Db
after_two =
    recount
      (recount (record_vote (record_vote some_db 1 some_key (pos 1) 5) 1 other_key (negsuc 0) 6) 1)
      1

-- Two votes, then their two recounts.
two_votes : Run (quiet some_db) (quiet after_two)
two_votes =
    next
      (next
        (next (next here (vote (quiet some_db) 1 some_key (pos 1) 5))
          (vote _ 1 other_key (negsuc 0) 6))
        (count _ 1 [] (1 ∷ []) refl))
      (count _ 1 [] [] refl)

quiescent-AllTallied_example : AllTallied after_two
quiescent-AllTallied_example =
    quiescent-AllTallied (quiet some_db) (quiet after_two) refl some_db-AllTallied two_votes refl

no_vote-ne : your_vote some_db some_model.id other_key ≢ pos 1
unfolding your_vote
no_vote-ne e = ground arith

vote_not_atomic_example :
    ¬ IsTallied (record_vote some_db 1 other_key (pos 1) 2000).votes some_model
vote_not_atomic_example =
    vote_not_atomic some_db some_model other_key (pos 1) 2000 some_db-VotesKeyed
      some_db-AllTallied.0 no_vote-ne

abbrev some_report : ReportRequest
some_report = record { model_id = 1; reason = "spam"; detail = "" }

file_report_hides_example :
    (count : ℕ) × (hidden : Bool) × ((file_report default_config some_db other_key some_report
        2000).0
      ≡ ok (
          json_response 202 (
            field "model_id" (number 1) (
              field "reported"
                (boolean true)
                (field "report_count" (number count) (field "hidden" (boolean hidden) end))))))
    × (count ≡ open_report_count some_db 1 + 1)
    × (((3 ≤ count)
          × (hidden ≡ true)
          × (exists_where
                (is_shown 1)
                (file_report default_config some_db other_key some_report 2000).1.models
              ≡ false))
        ⊎ ((count < 3)
            × (hidden ≡ false)
            × ((file_report default_config some_db other_key some_report 2000).1.models
                ≡ some_db.models)))
file_report_hides_example =
    file_report_hides default_config some_db other_key some_report 2000 some_db-ReportsKeyed

abbrev ban_body : Loaded
ban_body = value (obj (field "model_id" (number 1) (field "action" (str "ban") end)))

abbrev ban_request : ActionRequest
ban_request = record { model_id = 1; action = ban; reason = "" }

ban_body-read : action_request ban_body ≡ ok ban_request
unfolding action_request read_json read_model_id read_action read_reason get strip
ban_body-read = refl

handle_admin_action_ban_example :
    (is_banned (handle_admin_action ban_body other_key 2000 some_db).1 some_key ≡ true)
    × (exists_where
          (is_live_of some_key)
          (handle_admin_action ban_body other_key 2000 some_db).1.models
        ≡ false)
    × (open_report_count (handle_admin_action ban_body other_key 2000 some_db).1 1 ≡ 0)
handle_admin_action_ban_example =
    handle_admin_action_ban ban_body other_key 2000 some_db ban_request some_model ban_body-read
      refl (omega arith) refl

abbrev approve_body : Loaded
approve_body = value (obj (field "model_id" (number 1) (field "action" (str "approve") end)))

abbrev gone_db : Db
gone_db = record some_db { models = record some_model { visibility = deleted } ∷ [] }

abbrev favour : Loaded
favour = value (obj (field "model_id" (number 1) (field "on" (boolean true) end)))

favour-read : favourite_request favour ≡ ok (1, true)
unfolding favourite_request read_json read_model_id get
favour-read = refl
