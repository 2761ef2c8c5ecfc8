-- ===== src/Routes/Consistent/Inserted.antt =====
-- The INSERT of handle_upload of src/tessera/handlers_content.py.
use tessera_server.Common.{
  ℕ, suc, ◌≤◌, ◌≡◌, refl, sym, ◌∙◌, String, false, All, List, [], ◌∷◌, ◌++◌, arith, str_eq, eq_iff,
  subst, Bool-cases, inl, inr,
}
use tessera_server.Common.Int.{ℤ, pos, negsuc}
use tessera_server.Common.Table.{count_where, exists_where}
use tessera_server.Common.Table.Counts.{count_where-append}
use tessera_server.Common.Table.Laws.{All-map}
use tessera_server.Common.Sort.Keyed.{append-IsKeyedBy, All-append}
use tessera_server.Db.{Db, Model, Vote}
use tessera_server.Social.Voting.{sum_values, sum_for, count_for}
use tessera_server.Social.Voting.Tally.{IsTallied}
use tessera_server.Store.{Blob}
use tessera_server.Routes.Consistent.{HasFiles, IsSound}

no_votes :
    (id : ℕ) (votes : List Vote)
    → All (λ v. v.model_id ≤ id) votes
    → (sum_for (suc id) votes ≡ pos 0) × ((z : ℤ) → count_for (suc id) z votes ≡ 0)
unfolding sum_values
no_votes id [] h = (refl, λ z. refl)
no_votes id (v ∷ votes) h =
    let (sums, counts) = no_votes id votes h.1 in
    (ground (arith, h.0), λ z. ground (arith, h.0, counts z))

unused_hash :
    (hash : String) (models : List Model)
    → exists_where (λ m. str_eq m.model_hash hash) models ≡ false
    → count_where (λ m. str_eq m.model_hash hash) models ≡ 0
unused_hash hash [] h = refl
unused_hash hash (m ∷ models) h = ground (arith, unused_hash hash models)

new_hash :
    (hash : String) (row : Model) (models : List Model)
    → exists_where (λ m. str_eq m.model_hash row.model_hash) models ≡ false
    → count_where (λ m. str_eq m.model_hash hash) models ≤ 1
    → count_where (λ m. str_eq m.model_hash hash) (models ++ row ∷ []) ≤ 1
new_hash hash row models new h =
    let split = count_where-append (λ (m : Model). str_eq m.model_hash hash) models (row ∷ []) in
    elim (Bool-cases (str_eq row.model_hash hash)) [
      | inl same ↦
          let none_yet =
            subst (λ (s : String). count_where (λ m. str_eq m.model_hash s) models ≡ 0)
              ((eq_iff row.model_hash hash).0 same) (unused_hash row.model_hash models new) in
          rw split (rw (none_yet, same) (omega arith))
      | inr other ↦ rw split (rw other (omega arith))
    ]

module _ (blobs : List Blob) where
  -- A new row, with the next id, a new hash and no votes.
  pub insert-IsSound :
      (db : Db) (row : Model)
      → row.id ≡ suc db.last_id
      → row.score ≡ pos 0
      → row.up_votes ≡ 0
      → row.down_votes ≡ 0
      → exists_where (λ m. str_eq m.model_hash row.model_hash) db.models ≡ false
      → HasFiles blobs row
      → IsSound blobs db
      → IsSound blobs (record db { models = db.models ++ row ∷ []; last_id = suc db.last_id })
  insert-IsSound db row id score ups downs new kept h =
      let (sums, counts) = no_votes db.last_id db.votes h.votes_given in
      record {
        ids_given =
            All-append (λ m. m.id ≤ suc db.last_id) db.models row
              (All-map (λ m. m.id ≤ db.last_id) (λ m. m.id ≤ suc db.last_id) (λ m q. omega arith)
                db.models h.ids_given)
              (omega arith);
        ids_keyed =
            append-IsKeyedBy (λ m. m.id) db.last_id db.models row h.ids_given (omega arith)
              h.ids_keyed;
        hashes_keyed = λ hash. new_hash hash row db.models new (h.hashes_keyed hash);
        votes_given =
            All-map (λ v. v.model_id ≤ db.last_id) (λ v. v.model_id ≤ suc db.last_id)
              (λ v q. omega arith) db.votes h.votes_given;
        votes_keyed = h.votes_keyed;
        favourites_keyed = h.favourites_keyed;
        reports_keyed = h.reports_keyed;
        files = All-append (HasFiles blobs) db.models row h.files kept;
        tallied = All-append (IsTallied db.votes) db.models row h.tallied (record {
          score = rw id (score ∙ sym sums);
          ups = rw id (ups ∙ sym (counts (pos 1)));
          downs = rw id (downs ∙ sym (counts (negsuc 0)));
        });
      }
