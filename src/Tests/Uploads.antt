-- ===== src/Tests/Uploads.antt =====
-- The theorems on uploads and their format, at one upload.
use tessera_server.Common.{
  ◌+◌, ◌≤◌, ◌<◌, ◌≡◌, ◌⊎◌, refl, ap, str_eq, String, [], ◌∷◌, ◌++◌, ok, arith, false, some, length,
  if◌then◌else◌,
}
use tessera_server.Common.Text
use tessera_server.Common.Text.{strip}
use tessera_server.Bytes.{Bytes}
use tessera_server.Bytes.Codec.{hex, hex_digit, encode_ascii}
use tessera_server.Bytes.Numbers.{from_little, to_little, parse_int, read_digits}
use tessera_server.Config.{default_config}
use tessera_server.Hydro.{hash32, context_bytes}
use tessera_server.Json.{Loaded, value, decode_error, obj, field, end, str, get, number}
use tessera_server.Http.{error, json_response}
use tessera_server.Db.{Db, is_banned}
use tessera_server.Store.{Blob, put, total_bytes, validated}
use tessera_server.Envelope.{
  UploadEnvelope, header_bytes, bytes_eq, clean_title, valid_kind, parse_parts, parse_upload,
  build_upload,
}
use tessera_server.Envelope.Parse.{parse_upload_sound}
use tessera_server.Envelope.Build.{parse-build}
use tessera_server.Quota.{check_upload_allowed, uploads_today, uploads_last_hour}
use tessera_server.Upload.{App, handle_upload}
use tessera_server.Upload.Limits.{handle_upload_quota, duplicate_keeps_thumb}
use tessera_server.Content.Blobs.{model_column, thumb_column, serve_blob, blob_response}
use tessera_server.Content.Blobs.Uploaded.{uploaded_served}
use tessera_server.Common.Int.{pos}
use tessera_server.Tests.Fixtures.{other_key, some_model, some_db, some_hasher}

abbrev some_meta : Bytes
some_meta = 123 ∷ 125 ∷ []

-- A codec that knows one document.
abbrev some_loads : Bytes → Loaded
some_loads bs =
    if bytes_eq bs some_meta
    then value (obj (field "title" (str "cube") (field "kind" (str "model") end)))
    else decode_error

abbrev some_dumps : String → String → Bytes
some_dumps title kind = some_meta

abbrev some_envelope : UploadEnvelope
some_envelope = record {
  title = "cube";
  kind = "model";
  model = 1 ∷ 2 ∷ [];
  thumb = 3 ∷ 4 ∷ 5 ∷ [];
}

-- b"TSU1", the lengths 2, 2 and 3, the document, the model and the thumbnail.
abbrev some_body : Bytes
some_body =
    84 ∷ 83 ∷ 85 ∷ 49 ∷ 2 ∷ 0 ∷ 0 ∷ 0 ∷ 2 ∷ 0 ∷ 0 ∷ 0 ∷ 3 ∷ 0 ∷ 0 ∷ 0 ∷ 123 ∷ 125 ∷ 1 ∷ 2 ∷ 3 ∷ 4
    ∷ 5 ∷ []

some_body-parsed : parse_upload some_loads default_config some_body ≡ ok some_envelope
unfolding parse_upload parse_parts from_little get valid_kind clean_title strip
some_body-parsed = refl

some_body-built :
    build_upload some_dumps "cube" "model" (1 ∷ 2 ∷ []) (3 ∷ 4 ∷ 5 ∷ []) ≡ some some_body
unfolding build_upload to_little
some_body-built = refl

parse_upload_sound_example :
    ((header : Bytes) × (meta : Bytes) × (length header ≡ header_bytes)
      × (some_body ≡ header ++ (meta ++ (1 ∷ 2 ∷ 3 ∷ 4 ∷ 5 ∷ []))))
    × (0 < 2)
    × (2 ≤ default_config.max_model_bytes)
    × (0 < 3)
    × (3 ≤ default_config.max_thumb_bytes)
    × ((some_envelope.kind ≡ "pixel") ⊎ (some_envelope.kind ≡ "model"))
    × (0 < Text.length "cube")
    × (Text.length "cube" ≤ 64)
    × (Text.any Text.is_control "cube" ≡ false)
parse_upload_sound_example =
    parse_upload_sound some_loads default_config some_body some_envelope some_body-parsed

kind-valid : valid_kind (some (str "model")) ≡ ok "model"
unfolding valid_kind
kind-valid = refl

title-clean : clean_title (some (str "cube")) ≡ ok "cube"
unfolding clean_title strip
title-clean = refl

parse-build_example : parse_upload some_loads default_config some_body ≡ ok some_envelope
parse-build_example =
    parse-build some_loads some_dumps default_config "cube" "model" "cube" (1 ∷ 2 ∷ [])
      (3 ∷ 4 ∷ 5 ∷ []) some_body refl some_body-built kind-valid title-clean (omega arith)
      (omega arith) (omega arith) (omega arith) (omega arith)

abbrev empty_app : App
empty_app = record { db = some_db; blobs = [] }

empty_app-fits : total_bytes [] ≤ default_config.max_total_disk_bytes
unfolding total_bytes
empty_app-fits = omega arith

handle_upload_quota_example :
    ((handle_upload some_hasher some_loads default_config some_body other_key 2000 empty_app).1.db
      ≡ some_db)
    ⊎ ((is_banned some_db other_key ≡ false)
        × (uploads_today
              (handle_upload some_hasher some_loads default_config some_body other_key 2000
                empty_app).1.db
              other_key
              2000
            ≤ 8)
        × (uploads_last_hour
              (handle_upload some_hasher some_loads default_config some_body other_key 2000
                empty_app).1.db
              2000
            ≤ 240))
handle_upload_quota_example =
    handle_upload_quota some_hasher some_loads default_config some_body other_key 2000 empty_app

abbrev model_file : Blob
model_file = record { digest = some_model.model_hash; content = 1 ∷ 2 ∷ [] }

-- The gallery of some_model, with the file of its model.
abbrev full_app : App
full_app = record { db = some_db; blobs = model_file ∷ [] }

abbrev thumb_digest : String
thumb_digest = "0300000000000000000000000000000000000000000000000000000000000000"

upload-allowed :
    check_upload_allowed default_config some_db (model_file ∷ []) other_key 5 2000 ≡ ok tt
unfolding check_upload_allowed is_banned uploads_today uploads_last_hour total_bytes
upload-allowed = refl

put-old :
    put some_hasher (1 ∷ 2 ∷ []) (model_file ∷ []) ≡ ok (some_model.model_hash, model_file ∷ [])
unfolding put hash32 context_bytes encode_ascii hex hex_digit validated
put-old = refl

put-new :
    put some_hasher (3 ∷ 4 ∷ 5 ∷ []) (model_file ∷ [])
    ≡ ok (
      thumb_digest,
      model_file ∷ (record { digest = thumb_digest; content = 3 ∷ 4 ∷ 5 ∷ [] }) ∷ [],
    )
unfolding put hash32 context_bytes encode_ascii hex hex_digit validated
put-new = refl

duplicate_keeps_thumb_example :
    ((handle_upload some_hasher some_loads default_config some_body other_key 2000 full_app).0
      ≡ ok (error 409 "duplicate"))
    × ((handle_upload some_hasher some_loads default_config some_body other_key 2000 full_app).1.db
        ≡ some_db)
    × (total_bytes
          (handle_upload some_hasher some_loads default_config some_body other_key 2000
            full_app).1.blobs
        ≡ total_bytes (model_file ∷ []) + 3)
duplicate_keeps_thumb_example =
    duplicate_keeps_thumb some_hasher some_loads default_config some_body other_key 2000 full_app
      some_envelope some_model.model_hash thumb_digest (model_file ∷ []) _ some_body-parsed
      upload-allowed put-old put-new refl refl refl

-- A gallery whose model has another hash.
abbrev other_db : Db
other_db = record some_db {
  models =
      record some_model {
        model_hash = "0700000000000000000000000000000000000000000000000000000000000000";
      }
      ∷ [];
}

abbrev other_app : App
other_app = record { db = other_db; blobs = [] }

other-allowed : check_upload_allowed default_config other_db [] other_key 5 2000 ≡ ok tt
unfolding check_upload_allowed is_banned uploads_today uploads_last_hour total_bytes
other-allowed = refl

put-first : put some_hasher (1 ∷ 2 ∷ []) [] ≡ ok (some_model.model_hash, model_file ∷ [])
unfolding put hash32 context_bytes encode_ascii hex hex_digit validated
put-first = refl

two-read : parse_int "2" ≡ some (pos 2)
unfolding parse_int read_digits
two-read = refl

uploaded_served_example :
    ((handle_upload some_hasher some_loads default_config some_body other_key 2000 other_app).0
      ≡ ok (
          json_response 201 (
            field "id" (number 2) (
              field "model_hash"
                (str some_model.model_hash)
                (field "thumb_hash" (str thumb_digest) end)))))
    × (serve_blob
          (handle_upload some_hasher some_loads default_config some_body other_key 2000 other_app).1
          "2"
          model_column
        ≡ ok (blob_response (1 ∷ 2 ∷ [])))
    × (serve_blob
          (handle_upload some_hasher some_loads default_config some_body other_key 2000 other_app).1
          "2"
          thumb_column
        ≡ ok (blob_response (3 ∷ 4 ∷ 5 ∷ [])))
uploaded_served_example =
    uploaded_served some_hasher some_loads default_config some_body other_key "2" 2000 other_app
      some_envelope some_model.model_hash thumb_digest (model_file ∷ []) _ some_body-parsed
      other-allowed put-first put-new tt
      ((λ p. ground (arith, ap (λ (t : String). str_eq t thumb_digest) p)), tt) refl
      (omega arith, tt) (omega arith) two-read
