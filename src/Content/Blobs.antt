-- ===== src/Content/Blobs.antt =====
-- _serve_blob of src/tessera/handlers_content.py and its two routes.
pub mod Uploaded
pub mod Answered
use tessera_server.Common.{
  ℕ, String, Bool, Option, none, some, List, [], ◌∷◌, Result, ok, raise, ltb, if◌then◌else◌,
}
use tessera_server.Common.Int.{pos, negsuc}
use tessera_server.Bytes.{Bytes}
use tessera_server.Bytes.Numbers.{parse_int}
use tessera_server.Http.{Response, Payload, blob, error, Uncaught, exception}
use tessera_server.Db.{Db, Model, is_deleted, max_sql_int, find_model}
use tessera_server.Store
use tessera_server.Store.{Blob, StoreFault, invalid_digest, blob_not_found, hash_fault}
use tessera_server.Upload.{App}

-- The column that a route reads: model_hash or thumb_hash.
pub data Column : Type 0 where
  model_column thumb_column : Column

abbrev pub digest_of : Column → Model → String
digest_of model_column m = m.model_hash
digest_of thumb_column m = m.thumb_hash

-- BLOB_HEADERS
abbrev pub blob_headers : List (String × String)
blob_headers =
    ("Content-Disposition", "attachment")
    ∷ ("Cache-Control", "public, max-age=86400, immutable")
    ∷ []

abbrev pub blob_response : Bytes → Response
blob_response content = record { status = 200; payload = blob content blob_headers }

-- From the row on; a row whose digest has no file is answered as if there were no row.
unfoldable pub answer_blob : Option Model → Column → List Blob → Response
answer_blob none column blobs = error 404 "not_found"
answer_blob (some m) column blobs =
    if is_deleted m.visibility
    then error 404 "not_found"
    else elim (Store.get (digest_of column m) blobs) [
      | ok content ↦ blob_response content
      | raise fault ↦ error 404 "not_found"
    ]

-- _serve_blob
unfoldable pub serve_blob : App → String → Column → Result Uncaught Response
unfolding answer_blob
serve_blob app model_id_raw column = elim (parse_int model_id_raw) [
  | none ↦ ok (error 404 "not_found")
  | some (negsuc n) ↦
      if ltb max_sql_int n then raise exception else ok (answer_blob none column app.blobs)
  | some (pos id) ↦
      if ltb max_sql_int id
      then raise exception
      else ok (answer_blob (find_model id app.db.models) column app.blobs)
]
