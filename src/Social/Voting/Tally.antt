-- ===== src/Social/Voting/Tally.antt =====
-- The counters on a model and its votes, under handle_vote of src/tessera/handlers_social.py.
use tessera_server.Common.{
  ℕ, String, ◌≡◌, ◌≢◌, refl, sym, ◌∙◌, ◌&&◌, some, List, [], ◌∷◌, arith, ◌==◌, eq_refl, Bool-cases,
  inl, inr, All, Result-cases,
}
use tessera_server.Common.Int.{ℤ, pos, negsuc, eq_ℤ, eq_ℤ_iff}
use tessera_server.Common.Table.{delete_where, fetch_one, upsert}
use tessera_server.Common.Table.Laws.{
  count_where-upsert_ne, count_where-delete_ne, fetch_one-delete, All-update, All-map,
}
use tessera_server.Json.{Loaded}
use tessera_server.Db.{Db, Model, Vote, is_vote}
use tessera_server.Db.Invariant.{IsKeyed, delete-IsKeyed, upsert-IsKeyed}
use tessera_server.Social.Request.{with_visible_model-keeps}
use tessera_server.Social.Voting.{
  sum_values, sum_for, count_for, vote_request, record_vote, recount, your_vote, cast_vote,
  handle_vote,
}

-- The three counters of a model are the aggregates of its votes.
pub record IsTallied (votes : List Vote) (m : Model) : Type 0 where
  pub score : m.score ≡ sum_for m.id votes
  pub ups : m.up_votes ≡ count_for m.id (pos 1) votes
  pub downs : m.down_votes ≡ count_for m.id (negsuc 0) votes

abbrev pub AllTallied : Db → Type 0
AllTallied db = All (IsTallied db.votes) db.models

-- PRIMARY KEY (model_id, voter_key)
abbrev pub VotesKeyed : Db → Type 0
VotesKeyed db = IsKeyed (λ (v : Vote). v.model_id) (λ v. v.voter_key) db.votes

module _ (id : ℕ) (voter : String) (other : ℕ) (ne : other ≢ id) where
  sum_for-delete_ne :
      (votes : List Vote)
      → sum_for other (delete_where (is_vote id voter) votes) ≡ sum_for other votes
  unfolding sum_values
  sum_for-delete_ne [] = refl
  sum_for-delete_ne (v ∷ votes) = ground (arith, sum_for-delete_ne votes)

  sum_for-upsert_ne :
      (new : Vote) (f : Vote → Vote)
      → new.model_id ≡ id
      → ((v : Vote) → (f v).model_id ≡ v.model_id)
      → (votes : List Vote)
      → sum_for other (upsert (is_vote id voter) new f votes) ≡ sum_for other votes
  unfolding sum_values
  sum_for-upsert_ne new f a b [] = ground arith
  sum_for-upsert_ne new f a b (v ∷ votes) = ground (arith, b v, sum_for-upsert_ne new f a b votes)

  count_for-delete_ne :
      (z : ℤ) (votes : List Vote)
      → count_for other z (delete_where (is_vote id voter) votes) ≡ count_for other z votes
  count_for-delete_ne z votes =
      count_where-delete_ne (is_vote id voter) (λ v. v.model_id == other && eq_ℤ v.value z)
        (λ v h. ground arith) votes

  count_for-upsert_ne :
      (z : ℤ) (new : Vote) (f : Vote → Vote)
      → new.model_id ≡ id
      → ((v : Vote) → (f v).model_id ≡ v.model_id)
      → (votes : List Vote)
      → count_for other z (upsert (is_vote id voter) new f votes) ≡ count_for other z votes
  count_for-upsert_ne z new f a b votes =
      count_where-upsert_ne (is_vote id voter) (λ v. v.model_id == other && eq_ℤ v.value z) new f
        (ground arith) (λ v h. ground arith) (λ v h. ground (arith, b v)) votes

-- The aggregates of a model agree on two tables of votes.
record SameFor (id : ℕ) (votes votes' : List Vote) : Type 0 where
  sums : sum_for id votes' ≡ sum_for id votes
  ups : count_for id (pos 1) votes' ≡ count_for id (pos 1) votes
  downs : count_for id (negsuc 0) votes' ≡ count_for id (negsuc 0) votes

-- A vote on one model leaves the aggregates of every other alone.
record_vote-SameFor :
    (db : Db) (id : ℕ) (voter : String) (value : ℤ) (now : ℕ) (other : ℕ)
    → other ≢ id
    → SameFor other db.votes (record_vote db id voter value now).votes
unfolding record_vote
record_vote-SameFor db id voter value now other ne = elim (Bool-cases (eq_ℤ value (pos 0))) [
  | inl e ↦ rw e (record {
    sums = sum_for-delete_ne id voter other ne db.votes;
    ups = count_for-delete_ne id voter other ne (pos 1) db.votes;
    downs = count_for-delete_ne id voter other ne (negsuc 0) db.votes;
  })
  | inr e ↦ rw e (record {
    sums = sum_for-upsert_ne id voter other ne _ _ refl (λ v. refl) db.votes;
    ups = count_for-upsert_ne id voter other ne (pos 1) _ _ refl (λ v. refl) db.votes;
    downs = count_for-upsert_ne id voter other ne (negsuc 0) _ _ refl (λ v. refl) db.votes;
  })
]

pub record_vote-IsTallied :
    (db : Db) (id : ℕ) (voter : String) (value : ℤ) (now : ℕ) (m : Model)
    → m.id ≢ id
    → IsTallied db.votes m
    → IsTallied (record_vote db id voter value now).votes m
record_vote-IsTallied db id voter value now m ne h =
    let same = record_vote-SameFor db id voter value now m.id ne in
    record {
      score = h.score ∙ sym same.sums;
      ups = h.ups ∙ sym same.ups;
      downs = h.downs ∙ sym same.downs;
    }

-- A recount makes the model's own counters right, and touches no other row.
pub recount-IsTallied :
    (db : Db) (id : ℕ)
    → All (λ m. m.id ≢ id → IsTallied db.votes m) db.models
    → AllTallied (recount db id)
unfolding recount
recount-IsTallied db id h =
    All-update (λ m. m.id ≢ id → IsTallied db.votes m) (IsTallied db.votes) (λ m. m.id == id) _
      (λ m e x. record { score = ground arith; ups = ground arith; downs = ground arith })
      (λ m e x. x (ground arith)) db.models h

pub cast_vote-AllTallied :
    (db : Db) (id : ℕ) (voter : String) (value : ℤ) (now : ℕ)
    → AllTallied db
    → AllTallied (cast_vote db id voter value now).1
unfolding cast_vote
cast_vote-AllTallied db id voter value now h =
    recount-IsTallied (record_vote db id voter value now) id (
      unfold record_vote in
      All-map (IsTallied db.votes)
        (λ m. m.id ≢ id → IsTallied (record_vote db id voter value now).votes m)
        (λ m t ne. record_vote-IsTallied db id voter value now m ne t) db.models h)

-- Every POST /vote, refused or not, leaves the three counters of every model equal to the
-- aggregates of the votes table, if they were so before it.
pub handle_vote-AllTallied :
    (body : Loaded) (key : String) (now : ℕ) (db : Db)
    → AllTallied db
    → AllTallied (handle_vote body key now db).1
unfolding handle_vote
handle_vote-AllTallied body key now db h = elim (Result-cases (vote_request body)) [
  | inl (x, e) ↦ rw (e, handle_vote) h
  | inr (q, e) ↦
      rw (e, handle_vote)
        (with_visible_model-keeps AllTallied db key q.0 (cast_vote db q.0 key q.1 now) h
          (cast_vote-AllTallied db q.0 key q.1 now h))
]

pub record_vote-VotesKeyed :
    (db : Db) (id : ℕ) (voter : String) (value : ℤ) (now : ℕ)
    → VotesKeyed db
    → VotesKeyed (record_vote db id voter value now)
unfolding record_vote
record_vote-VotesKeyed db id voter value now h = elim (Bool-cases (eq_ℤ value (pos 0))) [
  | inl e ↦ rw e (delete-IsKeyed (λ (v : Vote). v.model_id) (λ v. v.voter_key) _ db.votes h)
  | inr e ↦ rw e (
      upsert-IsKeyed (λ (v : Vote). v.model_id) (λ v. v.voter_key) id voter _ _ refl refl
        (λ v. refl) (λ v. refl) db.votes h)
]

fetch_upsert :
    (id : ℕ) (voter : String) (value : ℤ) (now : ℕ) (votes : List Vote)
    → (v : Vote) × (fetch_one (is_vote id voter) (
          upsert
            (is_vote id voter)
            (record { model_id = id; voter_key = voter; value = value; created_at = now })
            (λ v. record v { value = value; created_at = now })
            votes)
        ≡ some v)
      × (v.value ≡ value)
fetch_upsert id voter value now [] = (
  record { model_id = id; voter_key = voter; value = value; created_at = now },
  ground (arith, eq_refl voter),
  refl,
)
fetch_upsert id voter value now (v ∷ votes) =
    let (w, found, same) = fetch_upsert id voter value now votes in
    elim (Bool-cases (is_vote id voter v)) [
      | inl e ↦ (record v { value = value; created_at = now }, ground arith, refl)
      | inr e ↦ (w, ground arith, same)
    ]

-- The caller's vote is what the request said, 0 for none.
pub your_vote-record_vote :
    (db : Db) (id : ℕ) (voter : String) (value : ℤ) (now : ℕ)
    → your_vote (record_vote db id voter value now) id voter ≡ value
unfolding record_vote your_vote
your_vote-record_vote db id voter value now = elim (Bool-cases (eq_ℤ value (pos 0))) [
  | inl e ↦ rw e (
      rw (fetch_one-delete (is_vote id voter) db.votes, your_vote)
        (sym ((eq_ℤ_iff value (pos 0)).0 e)))
  | inr e ↦
      let (w, found, same) = fetch_upsert id voter value now db.votes in
      rw e (rw (found, your_vote) same)
]
