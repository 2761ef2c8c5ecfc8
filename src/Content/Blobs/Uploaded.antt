-- ===== src/Content/Blobs/Uploaded.antt =====
-- An upload, followed by the downloads of its two files (src/tessera/handlers_content.py).
use tessera_server.Common.{
  ℕ, suc, ◌+◌, ◌≤◌, ◌≡◌, refl, String, false, some, List, [], ◌∷◌, ◌++◌, Result, ok, arith, All,
  length, str_eq,
}
use tessera_server.Common.Int.{pos}
use tessera_server.Common.Table.{exists_where}
use tessera_server.Bytes.{Bytes}
use tessera_server.Bytes.Numbers.{parse_int}
use tessera_server.Config.{TesseraConfig}
use tessera_server.Hydro.{HydroFault}
use tessera_server.Json.{Loaded, number, str, field, end}
use tessera_server.Http.{json_response}
use tessera_server.Db.{Db, Model, find_model, is_deleted, max_sql_int}
use tessera_server.Store
use tessera_server.Store.{Blob, put}
use tessera_server.Store.Reads.{FiledAs, get-put, get-put_keeps}
use tessera_server.Envelope.{UploadEnvelope, parse_upload}
use tessera_server.Quota.{check_upload_allowed}
use tessera_server.Upload.{App, new_model, insert_model, store_and_insert, handle_upload}
use tessera_server.Content.Blobs.{
  Column, model_column, thumb_column, digest_of, answer_blob, serve_blob, blob_response,
}

-- Every id has been given out by the AUTOINCREMENT sequence.
abbrev pub IdsGiven : Db → Type 0
IdsGiven db = All (λ m. m.id ≤ db.last_id) db.models

fetch_one-append_fresh :
    (rows : List Model) (last : ℕ) (m : Model)
    → All (λ r. r.id ≤ last) rows
    → m.id ≡ suc last
    → find_model (suc last) (rows ++ m ∷ []) ≡ some m
fetch_one-append_fresh [] last m a e = ground arith
fetch_one-append_fresh (r ∷ rows) last m a e =
    ground (arith, fetch_one-append_fresh rows last m a.1 e)

-- The row is there and not deleted, and its blob too.
serve_blob_found :
    (app : App) (raw : String) (column : Column) (id : ℕ) (m : Model) (content : Bytes)
    → parse_int raw ≡ some (pos id)
    → id ≤ max_sql_int
    → find_model id app.db.models ≡ some m
    → is_deleted m.visibility ≡ false
    → Store.get (digest_of column m) app.blobs ≡ ok content
    → serve_blob app raw column ≡ ok (blob_response content)
unfolding serve_blob answer_blob
serve_blob_found app raw column id m content read fits found live stored = ground arith

module _ (hasher : Bytes → Result HydroFault Bytes) (loads : Bytes → Loaded)
    (cfg : TesseraConfig) where
  -- A permitted upload of a model that the gallery does not have is answered 201 with a new id, and
  -- under that id GET /model and GET /thumb then answer exactly the bytes that were uploaded, if
  -- the blob store has no other content under their digests.
  pub uploaded_served :
      (body : Bytes) (key raw : String) (now : ℕ) (app : App) (e : UploadEnvelope)
      (model_hash thumb_hash : String) (blobs blobs' : List Blob)
      → parse_upload loads cfg body ≡ ok e
      → check_upload_allowed cfg app.db app.blobs key (length e.model + length e.thumb) now ≡ ok tt
      → put hasher e.model app.blobs ≡ ok (model_hash, blobs)
      → put hasher e.thumb blobs ≡ ok (thumb_hash, blobs')
      → FiledAs model_hash e.model app.blobs
      → FiledAs thumb_hash e.thumb blobs
      → exists_where (λ m. str_eq m.model_hash model_hash) app.db.models ≡ false
      → IdsGiven app.db
      → suc app.db.last_id ≤ max_sql_int
      → parse_int raw ≡ some (pos (suc app.db.last_id))
      → ((handle_upload hasher loads cfg body key now app).0
          ≡ ok (
              json_response 201 (
                field "id"
                  (number (suc app.db.last_id))
                  (field "model_hash" (str model_hash) (field "thumb_hash" (str thumb_hash) end)))))
        × (serve_blob (handle_upload hasher loads cfg body key now app).1 raw model_column
            ≡ ok (blob_response e.model))
        × (serve_blob (handle_upload hasher loads cfg body key now app).1 raw thumb_column
            ≡ ok (blob_response e.thumb))
  unfolding handle_upload store_and_insert insert_model
  uploaded_served body key raw now app e model_hash thumb_hash blobs blobs' p q m t filed filed' new
        given fits read =
      let row = new_model app.db e key model_hash thumb_hash now in
      let found = fetch_one-append_fresh app.db.models app.db.last_id row given refl in
      let model_read =
        get-put_keeps hasher e.thumb blobs blobs' thumb_hash model_hash e.model t
          (get-put hasher e.model app.blobs blobs model_hash m filed) in
      let thumb_read = get-put hasher e.thumb blobs blobs' thumb_hash t filed' in
      rw (p, q, handle_upload)
        (rw (m, t, store_and_insert)
          (rw (new, insert_model)
            (
              refl,
              serve_blob_found _ raw model_column (suc app.db.last_id) row e.model read fits found
                  refl model_read,
              serve_blob_found _ raw thumb_column (suc app.db.last_id) row e.thumb read fits found
                  refl thumb_read,
            )))
