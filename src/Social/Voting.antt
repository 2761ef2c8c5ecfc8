-- ===== src/Social/Voting.antt =====
-- handle_vote of src/tessera/handlers_social.py.
pub mod Tally
pub mod Score
pub mod Interleaving
use tessera_server.Common.{
  ℕ, suc, String, Bool, true, false, ◌&&◌, ◌||◌, Option, none, some, List, [], ◌∷◌, ◌==◌, Result,
  ok, raise, ◌>>=◌, if◌then◌else◌,
}
use tessera_server.Common.Int.{ℤ, pos, negsuc, ◌+ℤ◌, eq_ℤ}
use tessera_server.Common.Table.{select, delete_where, count_where, update_where, fetch_one, upsert}
use tessera_server.Json.{Json, int, float, Fields, field, end, number, Loaded}
use tessera_server.Http.{Response, json_response, error, Uncaught, exception}
use tessera_server.Db.{Db, Model, Vote, is_vote, find_model}
use tessera_server.Social.Request.{
  Fault, bad_request, read_json, read_model_id, item, answer_fault, with_visible_model,
}

-- COALESCE(SUM(value), 0)
unfoldable pub sum_values : List Vote → ℤ
sum_values [] = pos 0
sum_values (v ∷ vs) = v.value +ℤ sum_values vs

abbrev pub sum_for : ℕ → List Vote → ℤ
sum_for id votes = sum_values (select (λ v. v.model_id == id) votes)

-- The votes of one value on a model.
abbrev pub count_for : ℕ → ℤ → List Vote → ℕ
count_for id value votes = count_where (λ v. v.model_id == id && eq_ℤ v.value value) votes

-- `value not in VOTE_VALUES`; a float passes if it equals one of them
abbrev in_range : ℤ → Result Fault ℤ
in_range z =
    if eq_ℤ z (negsuc 0) || eq_ℤ z (pos 0) || eq_ℤ z (pos 1) then ok z else raise bad_request

unfoldable pub vote_value : Json → Result Fault ℤ
vote_value (int z) = in_range z
vote_value (float (some z)) = in_range z
vote_value _ = raise bad_request

-- The `try` block of handle_vote.
unfoldable pub vote_request : Loaded → Result Fault (ℕ × ℤ)
unfolding read_json read_model_id vote_value
vote_request body = do
  payload ← read_json body ("model_id" ∷ "value" ∷ [])
  model_id ← read_model_id payload
  raw ← item "value" payload
  value ← vote_value raw
  ok (model_id, value)

-- The first statement: DELETE for 0, INSERT or UPDATE otherwise.
unfoldable pub record_vote : Db → ℕ → String → ℤ → ℕ → Db
record_vote db model_id voter value now = record db {
  votes =
      if eq_ℤ value (pos 0)
      then delete_where (is_vote model_id voter) db.votes
      else upsert (is_vote model_id voter)
          (record { model_id = model_id; voter_key = voter; value = value; created_at = now })
          (λ v. record v { value = value; created_at = now }) db.votes;
}

-- The second statement: the counters of the model from its votes.
unfoldable pub recount : Db → ℕ → Db
recount db model_id = record db {
  models =
      update_where (λ m. m.id == model_id)
        (λ m. record m {
          score = sum_for model_id db.votes;
          up_votes = count_for model_id (pos 1) db.votes;
          down_votes = count_for model_id (negsuc 0) db.votes;
        })
        db.models;
}

-- The caller's own vote, 0 if there is none.
unfoldable pub your_vote : Db → ℕ → String → ℤ
your_vote db model_id voter = elim (fetch_one (is_vote model_id voter) db.votes) [
  | none ↦ pos 0
  | some v ↦ v.value
]

-- tally; a missing row is a TypeError
unfoldable pub tally : Db → ℕ → String → Result Uncaught Fields
unfolding your_vote
tally db model_id voter = elim (find_model model_id db.models) [
  | none ↦ raise exception
  | some m ↦ ok (
      field "model_id" (number model_id) (
        field "score" (int m.score) (
          field "up_votes" (number m.up_votes) (
            field "down_votes" (number m.down_votes)
              (field "your_vote" (int (your_vote db model_id voter)) end)))))
]

-- Both statements and the answer.
unfoldable pub cast_vote : Db → ℕ → String → ℤ → ℕ → Result Uncaught Response × Db
cast_vote db model_id voter value now =
    let db' = recount (record_vote db model_id voter value now) model_id in
    (tally db' model_id voter >>= λ fields. ok (json_response 200 fields), db')

-- handle_vote, for a body that `loads` has read, by the holder of `key`.
unfoldable pub handle_vote : Loaded → String → ℕ → Db → Result Uncaught Response × Db
handle_vote body key now db = elim (vote_request body) [
  | raise e ↦ (answer_fault e, db)
  | ok (model_id, value) ↦ with_visible_model db key model_id (cast_vote db model_id key value now)
]
