-- ===== src/Routes/Consistent.antt =====
-- What the tables of src/tessera/db.py and the blob directory of src/tessera/store.py have in common
-- with each other, under every handler.
pub mod Models
pub mod Votes
pub mod Inserted
pub mod Handlers
use tessera_server.Common.{ℕ, ◌≤◌, ◌≡◌, String, All, List, str_eq, ok}
use tessera_server.Common.Table.{count_where}
use tessera_server.Common.Sort.{IsKeyedBy}
use tessera_server.Bytes.{Bytes}
use tessera_server.Db.{Db, Model, Vote, Favourite, Report}
use tessera_server.Db.Invariant.{IsKeyed}
use tessera_server.Store
use tessera_server.Store.{Blob}
use tessera_server.Social.Voting.Tally.{IsTallied}

-- The store has a file under the digest, and it is a digest that the store reads.
abbrev pub HasFile : List Blob → String → Type 0
HasFile blobs digest = (content : Bytes) × (Store.get digest blobs ≡ ok content)

abbrev pub HasFiles : List Blob → Model → Type 0
HasFiles blobs m = HasFile blobs m.model_hash × HasFile blobs m.thumb_hash

-- Ids are given out once and hashes are unique; votes, favourites and reports keep to their primary
-- keys; votes are on ids that have been given out; the two files of each model are in the store;
-- and the counters of each model are the sums over its votes.
pub record IsConsistent (blobs : List Blob) (models : List Model) (last_id : ℕ) (votes : List Vote)
    (favourites : List Favourite) (reports : List Report) : Type 0 where
  pub ids_given : All (λ m. m.id ≤ last_id) models
  pub ids_keyed : IsKeyedBy (λ m. m.id) models
  pub hashes_keyed : (hash : String) → count_where (λ m. str_eq m.model_hash hash) models ≤ 1
  pub votes_given : All (λ v. v.model_id ≤ last_id) votes
  pub votes_keyed : IsKeyed (λ v. v.model_id) (λ v. v.voter_key) votes
  pub favourites_keyed : IsKeyed (λ f. f.model_id) (λ f. f.owner_key) favourites
  pub reports_keyed : IsKeyed (λ r. r.model_id) (λ r. r.reporter_key) reports
  pub files : All (HasFiles blobs) models
  pub tallied : All (IsTallied votes) models

abbrev pub IsSound : List Blob → Db → Type 0
IsSound blobs db = IsConsistent blobs db.models db.last_id db.votes db.favourites db.reports
