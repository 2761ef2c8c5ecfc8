-- ===== src/Social/Voting/Score.antt =====
-- How one vote moves the counters of its model, and the answer to POST /vote.
use tessera_server.Common.{
  ℕ, ◌≤◌, String, ◌≡◌, refl, sym, ◌∙◌, false, none, some, List, [], ◌∷◌, arith, ◌==◌, eq_refl,
  Bool-cases, inl, inr, ok,
}
use tessera_server.Common.Int.{ℤ, pos, ◌+ℤ◌, eq_ℤ, eq_ℤ_iff, int_laws, +ℤ_zero}
use tessera_server.Common.Table.{delete_where, count_where, fetch_one, upsert}
use tessera_server.Common.Table.Laws.{
  fetch_one-All, fetch_one-holds, fetch_one-update, fetch_one_weaken,
}
use tessera_server.Json.{Loaded, int, field, end, number}
use tessera_server.Http.{json_response}
use tessera_server.Db.{Db, Model, Vote, is_vote, is_banned, find_model, max_sql_int}
use tessera_server.Social.Request.{require_visible_model, with_visible_model_open}
use tessera_server.Social.Voting.{
  sum_values, sum_for, vote_request, record_vote, recount, your_vote, tally, cast_vote, handle_vote,
}
use tessera_server.Social.Voting.Tally.{
  IsTallied, AllTallied, VotesKeyed, your_vote-record_vote, cast_vote-AllTallied,
}

-- The first vote of a key on a model, 0 if there is none.
abbrev own : ℕ → String → List Vote → ℤ
own id voter votes = elim (fetch_one (is_vote id voter) votes) [ none ↦ pos 0 | some v ↦ v.value ]

sum_for-delete_none :
    (id : ℕ) (voter : String) (votes : List Vote)
    → count_where (is_vote id voter) votes ≡ 0
    → (sum_for id (delete_where (is_vote id voter) votes) ≡ sum_for id votes)
      × (own id voter votes ≡ pos 0)
unfolding sum_values
sum_for-delete_none id voter [] h = (refl, refl)
sum_for-delete_none id voter (v ∷ votes) h = ground (arith, sum_for-delete_none id voter votes)

sum_for-delete :
    (id : ℕ) (voter : String) (votes : List Vote)
    → count_where (is_vote id voter) votes ≤ 1
    → sum_for id (delete_where (is_vote id voter) votes) +ℤ own id voter votes ≡ sum_for id votes
unfolding sum_values
sum_for-delete id voter [] h = omega int_laws
sum_for-delete id voter (v ∷ votes) h =
    grind (int_laws, sum_for-delete id voter votes, sum_for-delete_none id voter votes)

sum_for-upsert :
    (id : ℕ) (voter : String) (value : ℤ) (now : ℕ) (votes : List Vote)
    → sum_for id (
          upsert
            (is_vote id voter)
            (record { model_id = id; voter_key = voter; value = value; created_at = now })
            (λ v. record v { value = value; created_at = now })
            votes)
        +ℤ own id voter votes
      ≡ sum_for id votes +ℤ value
unfolding sum_values
sum_for-upsert id voter value now [] = grind (int_laws, eq_refl voter)
sum_for-upsert id voter value now (v ∷ votes) =
    grind (int_laws, sum_for-upsert id voter value now votes)

-- With one row for each voter, a vote moves the sum by its value less the voter's previous one.
pub sum_for-record_vote :
    (db : Db) (id : ℕ) (voter : String) (value : ℤ) (now : ℕ)
    → VotesKeyed db
    → sum_for id (record_vote db id voter value now).votes +ℤ your_vote db id voter
      ≡ sum_for id db.votes +ℤ value
unfolding record_vote your_vote
sum_for-record_vote db id voter value now h = elim (Bool-cases (eq_ℤ value (pos 0))) [
  | inl e ↦
      let zero_value : value ≡ pos 0 = (eq_ℤ_iff value (pos 0)).0 e in
      rw (e, zero_value) (sum_for-delete id voter db.votes (h id voter) ∙ sym (+ℤ_zero _))
  | inr e ↦ rw e (sum_for-upsert id voter value now db.votes)
]

-- A visible model is also found by its id alone.
visible_found :
    (db : Db) (id : ℕ) (m : Model)
    → require_visible_model db id ≡ some m
    → (n : Model) × (find_model id db.models ≡ some n)
unfolding require_visible_model
visible_found db id m e = fetch_one_weaken _ (λ n. n.id == id) (λ n h. ground arith) db.models m e

-- The row that `tally` reads back carries the new counters.
recount-find :
    (db : Db) (id : ℕ) (voter : String) (value : ℤ) (now : ℕ) (n : Model)
    → find_model id db.models ≡ some n
    → (m : Model) × (find_model id (recount (record_vote db id voter value now) id).models ≡ some m)
unfolding recount record_vote
recount-find db id voter value now n e =
    (_, fetch_one-update (λ m. m.id == id) (λ m. m.id == id) _ (λ m. refl) db.models n e)

your_vote-recount :
    (db : Db) (i id : ℕ) (voter : String)
    → your_vote (recount db i) id voter ≡ your_vote db id voter
unfolding your_vote recount
your_vote-recount db i id voter = refl

-- The counters that `cast_vote` leaves on its model, and its answer.
cast_vote_lem :
    (db : Db) (id : ℕ) (voter : String) (value : ℤ) (now : ℕ) (m : Model)
    → require_visible_model db id ≡ some m
    → (m' : Model) × (find_model id (cast_vote db id voter value now).1.models ≡ some m')
      × ((cast_vote db id voter value now).0
          ≡ ok (
              json_response 200 (
                field "model_id" (number id) (
                  field "score" (int m'.score) (
                    field "up_votes" (number m'.up_votes) (
                      field "down_votes"
                        (number m'.down_votes)
                        (field "your_vote" (int value) end)))))))
unfolding cast_vote tally
cast_vote_lem db id voter value now m visible =
    let (n, known) = visible_found db id m visible in
    let (m', found) = recount-find db id voter value now n known in
    (
      m',
      found,
      rw (found, tally)
          (rw (your_vote-recount (record_vote db id voter value now) id id voter)
            (rw (your_vote-record_vote db id voter value now))),
    )

cast_vote-votes :
    (db : Db) (id : ℕ) (voter : String) (value : ℤ) (now : ℕ)
    → (cast_vote db id voter value now).1.votes ≡ (record_vote db id voter value now).votes
unfolding cast_vote recount
cast_vote-votes db id voter value now = refl

visible-IsTallied :
    (db : Db) (id : ℕ) (m : Model)
    → require_visible_model db id ≡ some m
    → AllTallied db
    → m.score ≡ sum_for id db.votes
unfolding require_visible_model
visible-IsTallied db id m e h =
    let here : m.id ≡ id = ground (arith, fetch_one-holds _ db.models m e) in
    rw here at (fetch_one-All _ (IsTallied db.votes) db.models m h e).score

-- POST /vote by a key that is not banned, on a model that is not deleted, answers 200 with the
-- model's new counters and the vote as the caller's own, and moves the score by exactly the new
-- vote less the caller's previous one.
pub vote_counted :
    (body : Loaded) (key : String) (now : ℕ) (db : Db) (id : ℕ) (value : ℤ) (m : Model)
    → vote_request body ≡ ok (id, value)
    → is_banned db key ≡ false
    → id ≤ max_sql_int
    → require_visible_model db id ≡ some m
    → AllTallied db
    → VotesKeyed db
    → (m' : Model) × (find_model id (handle_vote body key now db).1.models ≡ some m')
      × ((handle_vote body key now db).0
          ≡ ok (
              json_response 200 (
                field "model_id" (number id) (
                  field "score" (int m'.score) (
                    field "up_votes" (number m'.up_votes) (
                      field "down_votes"
                        (number m'.down_votes)
                        (field "your_vote" (int value) end)))))))
      × (m'.score +ℤ your_vote db id key ≡ m.score +ℤ value)
unfolding handle_vote
vote_counted body key now db id value m parsed free fits visible tallied keyed =
    let act = cast_vote db id key value now in
    let (m', found, answer) = cast_vote_lem db id key value now m visible in
    let same : handle_vote body key now db ≡ act =
      rw (parsed, handle_vote) (with_visible_model_open db key id m act free fits visible) in
    let here : m'.id ≡ id = ground (arith, fetch_one-holds _ act.1.models m' found) in
    let counted =
      fetch_one-All (λ n. n.id == id) (IsTallied act.1.votes) act.1.models m'
        (cast_vote-AllTallied db id key value now tallied) found in
    (
      m',
      rw same found,
      rw same answer,
      rw
          (
            counted.score,
            here,
            cast_vote-votes db id key value now,
            visible-IsTallied db id m visible tallied,
          )
          (sum_for-record_vote db id key value now keyed),
    )
