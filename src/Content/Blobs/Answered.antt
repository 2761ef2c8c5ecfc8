-- ===== src/Content/Blobs/Answered.antt =====
-- The rows and the files behind the answers of the blob routes (src/tessera/handlers_content.py).
use tessera_server.Common.{
  ℕ, ◌≤◌, ◌≡◌, ◌≢◌, ◌⊎◌, refl, ap, inl, inr, String, false, Option, none, some, List, ok, arith,
  Bool-cases, Option-cases, Result-cases, ltb,
}
use tessera_server.Common.Int.{pos, negsuc}
use tessera_server.Bytes.{Bytes}
use tessera_server.Bytes.Numbers.{parse_int}
use tessera_server.Http.{Response, error}
use tessera_server.Db.{Model, is_deleted, find_model, max_sql_int}
use tessera_server.Content.Blobs.{
  Column, model_column, thumb_column, digest_of, answer_blob, serve_blob, blob_response,
}
use tessera_server.Store
use tessera_server.Store.{Blob}
use tessera_server.Upload.{App}
use tessera_server.Routes.Consistent.{HasFiles}

not_found-ne-blob : (content : Bytes) → error 404 "not_found" ≢ blob_response content
not_found-ne-blob content e = ground (arith, ap (λ (r : Response). r.status) e)

-- The row and the file behind an answer.
answered_parts :
    (row : Option Model) (column : Column) (blobs : List Blob) (content : Bytes)
    → answer_blob row column blobs ≡ blob_response content
    → (m : Model) × (row ≡ some m) × (Store.get (digest_of column m) blobs ≡ ok content)
unfolding answer_blob
answered_parts none column blobs content e = absurd (not_found-ne-blob content e)
answered_parts (some m) column blobs content e = elim (Bool-cases (is_deleted m.visibility)) [
  | inl dead ↦ absurd (not_found-ne-blob content (ground arith))
  | inr live ↦ elim (Result-cases (Store.get (digest_of column m) blobs)) [
    | inl (x, failed) ↦ absurd (not_found-ne-blob content (ground arith))
    | inr (c, read) ↦ (m, refl, ground arith)
  ]
]

-- An answer with a content was looked up under a number.
pub served_parts :
    (app : App) (raw : String) (column : Column) (content : Bytes)
    → serve_blob app raw column ≡ ok (blob_response content)
    → (id : ℕ) × (m : Model) × (parse_int raw ≡ some (pos id))
      × (ltb max_sql_int id ≡ false)
      × (find_model id app.db.models ≡ some m)
      × (Store.get (digest_of column m) app.blobs ≡ ok content)
unfolding serve_blob
served_parts app raw column content e = elim (Option-cases (parse_int raw)) [
  | inl garbled ↦ absurd (not_found-ne-blob content (ground arith))
  | inr (negsuc n, read) ↦ elim (Bool-cases (ltb max_sql_int n)) [
    | inl big ↦ absurd (ground arith)
    | inr small ↦
        let (m, found, filed) = answered_parts none column app.blobs content (ground arith) in
        absurd (ground arith)
  ]
  | inr (pos id, read) ↦ elim (Bool-cases (ltb max_sql_int id)) [
    | inl big ↦ absurd (ground arith)
    | inr small ↦
        let (m, found, filed) =
          answered_parts (find_model id app.db.models) column app.blobs content (ground arith) in
        (id, m, read, small, found, filed)
  ]
]

pub digest_of_same :
    (column : Column) (m m' : Model)
    → m'.model_hash ≡ m.model_hash
    → m'.thumb_hash ≡ m.thumb_hash
    → digest_of column m' ≡ digest_of column m
digest_of_same model_column m m' h t = h
digest_of_same thumb_column m m' h t = t

-- A row and a file that are there are served, unless the row is deleted.
pub served_or_gone :
    (app : App) (raw : String) (column : Column) (id : ℕ) (m : Model) (content : Bytes)
    → parse_int raw ≡ some (pos id)
    → ltb max_sql_int id ≡ false
    → find_model id app.db.models ≡ some m
    → Store.get (digest_of column m) app.blobs ≡ ok content
    → (serve_blob app raw column ≡ ok (blob_response content))
      ⊎ (serve_blob app raw column ≡ ok (error 404 "not_found"))
unfolding serve_blob answer_blob
served_or_gone app raw column id m content read small found filed =
    elim (Bool-cases (is_deleted m.visibility)) [
      | inl dead ↦ inr (ground arith)
      | inr live ↦ inl (ground arith)
    ]

-- The two files of a row that is there and not deleted are served.
pub found_served :
    (app : App) (id : ℕ) (raw : String) (column : Column) (m : Model)
    → parse_int raw ≡ some (pos id)
    → id ≤ max_sql_int
    → find_model id app.db.models ≡ some m
    → is_deleted m.visibility ≡ false
    → HasFiles app.blobs m
    → (content : Bytes) × (Store.get (digest_of column m) app.blobs ≡ ok content)
      × (serve_blob app raw column ≡ ok (blob_response content))
unfolding serve_blob answer_blob
found_served app id raw model_column m read fits found live ((content, stored), _) =
    (content, stored, ground arith)
found_served app id raw thumb_column m read fits found live (_, (content, stored)) =
    (content, stored, ground arith)
