-- ===== src/Upload.antt =====
-- handle_upload of src/tessera/handlers_content.py.
pub mod Limits
pub mod Cases
use tessera_server.Common.{
  ℕ, suc, ◌+◌, String, Bool, List, [], ◌∷◌, ◌++◌, Result, ok, raise, ◌>>=◌, length, str_eq,
  if◌then◌else◌,
}
use tessera_server.Common.Int.{pos}
use tessera_server.Common.Table.{exists_where}
use tessera_server.Bytes.{Bytes}
use tessera_server.Config.{TesseraConfig}
use tessera_server.Hydro.{HydroFault}
use tessera_server.Json.{Loaded, number, str, field, end}
use tessera_server.Http.{Response, json_response, error, Uncaught, exception}
use tessera_server.Db.{Db, Model, public}
use tessera_server.Store.{Blob, put}
use tessera_server.Envelope.{EnvelopeFault, envelope_error, uncaught, UploadEnvelope, parse_upload}
use tessera_server.Quota.{check_upload_allowed}

-- The tables and the blob directory.
pub record App : Type 0 where
  pub db : Db
  pub blobs : List Blob

-- The row that the INSERT writes, with the defaults of the schema.
abbrev pub new_model : Db → UploadEnvelope → String → String → String → ℕ → Model
new_model db e author model_hash thumb_hash now = record {
  id = suc db.last_id;
  model_hash = model_hash;
  thumb_hash = thumb_hash;
  title = e.title;
  author_key = author;
  kind = e.kind;
  model_bytes = length e.model;
  thumb_bytes = length e.thumb;
  created_at = now;
  score = pos 0;
  up_votes = 0;
  down_votes = 0;
  visibility = public;
}

-- INSERT INTO models, which breaks UNIQUE (model_hash) or takes the next id.
unfoldable pub insert_model :
    App → UploadEnvelope → String → String → String → ℕ → Result Uncaught Response × App
insert_model app e author model_hash thumb_hash now =
    if exists_where (λ m. str_eq m.model_hash model_hash) app.db.models
    then (ok (error 409 "duplicate"), app)
    else (
      ok (
          json_response 201 (
            field "id" (number (suc app.db.last_id))
              (field "model_hash" (str model_hash) (field "thumb_hash" (str thumb_hash) end)))),
      record app {
        db = record app.db {
          models = app.db.models ++ (new_model app.db e author model_hash thumb_hash now) ∷ [];
          last_id = suc app.db.last_id;
        };
      },
    )

-- `except EnvelopeError`
unfoldable pub answer_envelope_fault : EnvelopeFault → Result Uncaught Response
answer_envelope_fault envelope_error = ok (error 400 "bad_envelope")
answer_envelope_fault uncaught = raise exception

module _ (hasher : Bytes → Result HydroFault Bytes) where
  -- From the two `put` calls on; what a raise leaves behind stays.
  unfoldable pub store_and_insert :
      App → UploadEnvelope → String → ℕ → Result Uncaught Response × App
  store_and_insert app e author now = elim (put hasher e.model app.blobs) [
    | raise x ↦ (raise exception, app)
    | ok (model_hash, with_model) ↦ elim (put hasher e.thumb with_model) [
      | raise x ↦ (raise exception, record app { blobs = with_model })
      | ok (thumb_hash, with_thumb) ↦
          insert_model (record app { blobs = with_thumb }) e author model_hash thumb_hash now
    ]
  ]

  module _ (loads : Bytes → Loaded) (cfg : TesseraConfig) where
    -- handle_upload
    unfoldable pub handle_upload : Bytes → String → ℕ → App → Result Uncaught Response × App
    handle_upload body key now app = elim (parse_upload loads cfg body) [
      | raise x ↦ (answer_envelope_fault x, app)
      | ok e ↦
          elim (check_upload_allowed cfg app.db app.blobs key (length e.model + length e.thumb)
            now) [
              | raise q ↦ (ok (error q.status q.code), app)
              | ok _ ↦ store_and_insert app e key now
            ]
    ]
