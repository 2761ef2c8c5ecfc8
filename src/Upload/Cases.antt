-- ===== src/Upload/Cases.antt =====
-- How far an upload of src/tessera/handlers_content.py gets before it answers.
use tessera_server.Common.{
  ℕ, ◌+◌, ◌≡◌, inl, inr, String, false, List, [], ◌∷◌, ◌++◌, Result, ok, length, str_eq, Bool-cases,
  Result-cases, suc,
}
use tessera_server.Common.Table.{exists_where}
use tessera_server.Bytes.{Bytes}
use tessera_server.Config.{TesseraConfig}
use tessera_server.Hydro.{HydroFault}
use tessera_server.Json.{Loaded}
use tessera_server.Store.{Blob, put}
use tessera_server.Envelope.{UploadEnvelope, parse_upload}
use tessera_server.Quota.{check_upload_allowed}
use tessera_server.Upload.{App, new_model, insert_model, store_and_insert, handle_upload}

abbrev pub with_blobs : App → List Blob → App
with_blobs app blobs = record app { blobs = blobs }

-- The state after the INSERT.
abbrev pub with_row : App → UploadEnvelope → String → String → String → ℕ → App
with_row app e author model_hash thumb_hash now = record app {
  db = record app.db {
    models = app.db.models ++ (new_model app.db e author model_hash thumb_hash now) ∷ [];
    last_id = suc app.db.last_id;
  };
}

module _ (P : App → Type 0) where
  -- What every write of a file keeps.
  abbrev pub KeptByPut : (Bytes → Result HydroFault Bytes) → Type 0
  KeptByPut hasher =
      (app : App) (content : Bytes) (blobs : List Blob) (digest : String)
      → put hasher content app.blobs ≡ ok (digest, blobs)
      → P app
      → P (with_blobs app blobs)

  -- What the INSERT of a row keeps, when both of its files have just been written and no row has
  -- its hash.
  abbrev pub KeptByInsert : (Bytes → Result HydroFault Bytes) → String → ℕ → Type 0
  KeptByInsert hasher key now =
      (app : App) (e : UploadEnvelope) (blobs blobs' : List Blob) (model_hash thumb_hash : String)
      → put hasher e.model app.blobs ≡ ok (model_hash, blobs)
      → put hasher e.thumb blobs ≡ ok (thumb_hash, blobs')
      → exists_where (λ m. str_eq m.model_hash model_hash) app.db.models ≡ false
      → P (with_blobs app blobs')
      → P (with_row (with_blobs app blobs') e key model_hash thumb_hash now)

  module _ (hasher : Bytes → Result HydroFault Bytes) (key : String) (now : ℕ)
      (write : KeptByPut hasher) (insert : KeptByInsert hasher key now) where
    store_and_insert-keeps :
        (app : App) (e : UploadEnvelope) → P app → P (store_and_insert hasher app e key now).1
    unfolding store_and_insert insert_model
    store_and_insert-keeps app e h = elim (Result-cases (put hasher e.model app.blobs)) [
      | inl (x, r) ↦ rw (r, store_and_insert) h
      | inr (m, r) ↦
          let first = write app e.model m.1 m.0 r h in
          elim (Result-cases (put hasher e.thumb m.1)) [
            | inl (x, s) ↦ rw (r, s, store_and_insert) first
            | inr (t, s) ↦
                let second = write (with_blobs app m.1) e.thumb t.1 t.0 s first in
                elim (Bool-cases (exists_where (λ k. str_eq k.model_hash m.0) app.db.models)) [
                  | inl dup ↦ rw (r, s, store_and_insert) (rw (dup, insert_model) second)
                  | inr new ↦
                      rw (r, s, store_and_insert)
                        (rw (new, insert_model) (insert app e m.1 t.1 m.0 t.0 r s new second))
                ]
          ]
    ]

    -- What both keep, an upload keeps.
    pub handle_upload-keeps :
        (loads : Bytes → Loaded) (cfg : TesseraConfig) (body : Bytes) (app : App)
        → P app
        → P (handle_upload hasher loads cfg body key now app).1
    unfolding handle_upload
    handle_upload-keeps loads cfg body app h = elim (Result-cases (parse_upload loads cfg body)) [
      | inl (x, p) ↦ rw (p, handle_upload) h
      | inr (e, p) ↦
          elim (Result-cases
            (check_upload_allowed cfg app.db app.blobs key (length e.model + length e.thumb) now)) [
              | inl (x, q) ↦ rw (p, q, handle_upload) h
              | inr (u, q) ↦ rw (p, q, handle_upload) (store_and_insert-keeps app e h)
            ]
    ]
