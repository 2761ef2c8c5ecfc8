-- ===== src/Routes/Consistent/Votes.antt =====
-- The writes to favourites and votes of src/tessera/handlers_social.py.
use tessera_server.Common.{
  ℕ, ◌≤◌, refl, String, Bool, true, false, All, List, ◌==◌, str_eq, Bool-cases, inl, inr,
}
use tessera_server.Common.Int.{ℤ, pos, negsuc, eq_ℤ}
use tessera_server.Common.Table.Laws.{All-update, All-upsert, All-delete, count_where-update}
use tessera_server.Common.Sort.Keyed.{update-IsKeyedBy}
use tessera_server.Db.{Db, Favourite, is_vote}
use tessera_server.Db.Invariant.{IsKeyed, upsert-IsKeyed, delete-IsKeyed}
use tessera_server.Social.Voting.{sum_for, count_for, record_vote, recount, cast_vote}
use tessera_server.Social.Voting.Tally.{cast_vote-AllTallied, record_vote-VotesKeyed}
use tessera_server.Social.Favouriting.{record_favourite}
use tessera_server.Store.{Blob}
use tessera_server.Routes.Consistent.{HasFiles, IsSound}

record_vote-given :
    (db : Db) (id : ℕ) (voter : String) (value : ℤ) (now : ℕ)
    → id ≤ db.last_id
    → All (λ v. v.model_id ≤ db.last_id) db.votes
    → All (λ v. v.model_id ≤ db.last_id) (record_vote db id voter value now).votes
unfolding record_vote
record_vote-given db id voter value now given h = elim (Bool-cases (eq_ℤ value (pos 0))) [
  | inl e ↦ rw e (All-delete (λ v. v.model_id ≤ db.last_id) (is_vote id voter) db.votes h)
  | inr e ↦
      rw e (
        All-upsert (λ v. v.model_id ≤ db.last_id) (is_vote id voter) _ _ given (λ v q. q) db.votes
          h)
]

module _ (blobs : List Blob) where
  favourites-IsSound :
      (db : Db) (favourites : List Favourite)
      → IsKeyed (λ f. f.model_id) (λ f. f.owner_key) favourites
      → IsSound blobs db
      → IsSound blobs (record db { favourites = favourites })
  favourites-IsSound db favourites k h = record {
    ids_given = h.ids_given;
    ids_keyed = h.ids_keyed;
    hashes_keyed = h.hashes_keyed;
    votes_given = h.votes_given;
    votes_keyed = h.votes_keyed;
    favourites_keyed = k;
    reports_keyed = h.reports_keyed;
    files = h.files;
    tallied = h.tallied;
  }

  pub record_favourite-IsSound :
      (db : Db) (id : ℕ) (owner : String) (on : Bool) (now : ℕ)
      → IsSound blobs db
      → IsSound blobs (record_favourite db id owner on now)
  unfolding record_favourite
  record_favourite-IsSound db id owner true now h =
      favourites-IsSound db _
        (upsert-IsKeyed (λ (f : Favourite). f.model_id) (λ f. f.owner_key) id owner _ _ refl refl
          (λ f. refl) (λ f. refl) db.favourites h.favourites_keyed)
        h
  record_favourite-IsSound db id owner false now h =
      favourites-IsSound db _
        (delete-IsKeyed (λ (f : Favourite). f.model_id) (λ f. f.owner_key) _ db.favourites
          h.favourites_keyed)
        h

  -- A vote and its recount, on a model whose id has been given out.
  pub cast_vote-IsSound :
      (db : Db) (id : ℕ) (voter : String) (value : ℤ) (now : ℕ)
      → id ≤ db.last_id
      → IsSound blobs db
      → IsSound blobs (cast_vote db id voter value now).1
  unfolding cast_vote recount record_vote
  cast_vote-IsSound db id voter value now given h = record {
    ids_given =
        All-update (λ m. m.id ≤ db.last_id) (λ m. m.id ≤ db.last_id) (λ m. m.id == id) _
          (λ m e q. q) (λ m e q. q) db.models h.ids_given;
    ids_keyed = update-IsKeyedBy (λ m. m.id) (λ m. m.id == id) _ (λ m. refl) db.models h.ids_keyed;
    hashes_keyed = λ hash.
        let votes = (record_vote db id voter value now).votes in
        rw
          (count_where-update (λ m. m.id == id) (λ m. str_eq m.model_hash hash)
            (λ m. record m {
              score = sum_for id votes;
              up_votes = count_for id (pos 1) votes;
              down_votes = count_for id (negsuc 0) votes;
            })
            (λ m e. refl) db.models)
          (h.hashes_keyed hash);
    votes_given = record_vote-given db id voter value now given h.votes_given;
    votes_keyed = record_vote-VotesKeyed db id voter value now h.votes_keyed;
    favourites_keyed = h.favourites_keyed;
    reports_keyed = h.reports_keyed;
    files =
        All-update (HasFiles blobs) (HasFiles blobs) (λ m. m.id == id) _ (λ m e q. q) (λ m e q. q)
          db.models h.files;
    tallied = cast_vote-AllTallied db id voter value now h.tallied;
  }
