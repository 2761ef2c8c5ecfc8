-- ===== src/Tests/Healthy.antt =====
-- The theorems on the tables and the blobs of the server, at a gallery with a model and a vote.
use tessera_server.Common.{◌≤◌, ◌≡◌, ◌⊎◌, refl, some, List, [], ◌∷◌, ok, arith}
use tessera_server.Common.Int.{ℤ, pos, ◌+ℤ◌}
use tessera_server.Bytes.{Bytes}
use tessera_server.Http.{error}
use tessera_server.Bytes.Numbers.{parse_int, read_digits}
use tessera_server.Config.{default_config}
use tessera_server.Db.{Db, Model, is_banned, find_model}
use tessera_server.Store
use tessera_server.Store.{Blob, validated, total_bytes}
use tessera_server.Store.Addressed.{IsAddressed, HashesTo}
use tessera_server.Content.Blobs.{answer_blob, model_column, serve_blob, blob_response}
use tessera_server.RateLimit.{new_limiter, allow}
use tessera_server.Routes.{serve, handle}
use tessera_server.Signing.{
  verify_signed_request, authenticate, parse_signature_headers, lower_hex, signature_ok,
  canonical_message,
}
use tessera_server.Hydro.{hash32, sign_verify, context_bytes, fixed}
use tessera_server.Bytes.Codec.{encode_ascii, hex, hex_digit, from_hex, digit_value}
use tessera_server.Json.{get}
use tessera_server.Replay.{check_and_record}
use tessera_server.Social.Request.{
  with_visible_model, require_visible_model, read_json, read_model_id,
}
use tessera_server.RateLimit.Floats.{whole_seconds}
use tessera_server.Social.Voting.{
  sum_values, handle_vote, vote_request, cast_vote, recount, record_vote,
}
use tessera_server.Routes.Consistent.{HasFiles, IsSound}
use tessera_server.Routes.Kept.{blob_hasher}
use tessera_server.Routes.Healthy.{IsHealthy}
use tessera_server.Dispatch.{Server, dispatch}
use tessera_server.ReportTool.{act, unban, run_command, apply_action, cmd_unban, act_locally}
use tessera_server.ReportTool.Interleaved.{
  Event, request, command, step, run_events, gallery-IsHealthy, gallery_live, gallery_deleted,
  gallery_immutable,
}
use tessera_server.Admin.{approve}
use tessera_server.Moderation.{set_visibility, resolve_reports}
use tessera_server.Tests.Fixtures.{some_lib, some_model, some_db, other_key}
use tessera_server.Tests.Server.{deleted_server, voting, plain_target, voting_request}

abbrev two_blobs : List Blob
two_blobs =
    (record { digest = some_model.model_hash; content = 1 ∷ 2 ∷ [] })
    ∷ (record {
      digest = some_model.thumb_hash;
      content = 3 ∷ 4 ∷ 5 ∷ 6 ∷ 7 ∷ 8 ∷ 9 ∷ 10 ∷ 11 ∷ [];
    })
    ∷ []

abbrev voted_db : Db
voted_db = record some_db {
  models = record some_model { score = pos 1; up_votes = 1 } ∷ [];
  votes = record { model_id = 1; voter_key = other_key; value = pos 1; created_at = 1000 } ∷ [];
}

abbrev voted_server : Server ℤ
voted_server = record {
  app = record { db = voted_db; blobs = two_blobs };
  limiter = new_limiter whole_seconds 4 2 (pos 1) 3 (pos 1);
}

some_model-HasFiles : HasFiles two_blobs some_model
unfolding Store.get validated
some_model-HasFiles = ((1 ∷ 2 ∷ [], refl), (3 ∷ 4 ∷ 5 ∷ 6 ∷ 7 ∷ 8 ∷ 9 ∷ 10 ∷ 11 ∷ [], refl))

two_blobs-fit : total_bytes two_blobs ≤ default_config.max_total_disk_bytes
unfolding total_bytes
two_blobs-fit = omega arith

voted_db-IsSound : IsSound two_blobs voted_db
unfolding sum_values ◌+ℤ◌
voted_db-IsSound = record {
  ids_given = (omega arith, tt);
  ids_keyed = (tt, tt);
  hashes_keyed = λ hash. ground arith;
  votes_given = (omega arith, tt);
  votes_keyed = λ id key. ground arith;
  favourites_keyed = λ id key. omega arith;
  reports_keyed = λ id key. omega arith;
  files = (some_model-HasFiles, tt);
  tallied = (record { score = refl; ups = refl; downs = refl }, tt);
}

two_blobs-IsAddressed : IsAddressed (blob_hasher some_lib voting default_config) two_blobs
unfolding hash32 context_bytes encode_ascii hex hex_digit
two_blobs-IsAddressed = ((_, refl, refl), ((_, refl, refl), tt))

voted_server-IsHealthy : IsHealthy some_lib voting default_config voted_server.app
voted_server-IsHealthy = (voted_db-IsSound, (two_blobs-IsAddressed, two_blobs-fit))

-- A vote by a second key, an approval on the box, and the lifting of a ban that there is not.
abbrev some_events : List (Event ℤ)
some_events =
    request voting_request (pos 100) 1000
    ∷ command (act (pos 1) approve "") 1010
    ∷ command (unban other_key) 1020
    ∷ []

gallery-IsHealthy_example :
    IsHealthy some_lib voting default_config
      (run_events some_lib voting default_config plain_target whole_seconds some_events
        voted_server).app
gallery-IsHealthy_example =
    gallery-IsHealthy some_lib voting default_config plain_target whole_seconds some_events
      voted_server voted_server-IsHealthy

one-read : parse_int "1" ≡ some (pos 1)
unfolding parse_int read_digits
one-read = refl

abbrev voted_model : Model
voted_model = record some_model { score = pos 2; up_votes = 2 }

voted_model-found :
    find_model 1
      (run_events some_lib voting default_config plain_target whole_seconds some_events
        voted_server).app.db.models
    ≡ some voted_model
unfolding run_events step run_command apply_action act_locally set_visibility resolve_reports
    cmd_unban dispatch parse_int read_digits new_limiter ◌+ℤ◌ serve verify_signed_request
    authenticate parse_signature_headers lower_hex signature_ok canonical_message hash32 sign_verify
    context_bytes fixed encode_ascii hex hex_digit from_hex digit_value check_and_record handle
    handle_vote vote_request with_visible_model require_visible_model is_banned cast_vote recount
    record_vote sum_values read_json read_model_id allow get
voted_model-found = refl

gallery_live_example :
    (content : Bytes) × HashesTo
      (blob_hasher some_lib voting default_config)
      content
      some_model.model_hash
    × (serve_blob
          (run_events some_lib voting default_config plain_target whole_seconds some_events
            voted_server).app
          "1"
          model_column
        ≡ ok (blob_response content))
gallery_live_example =
    gallery_live some_lib voting default_config plain_target whole_seconds some_events voted_server
      1 "1" model_column voted_model voted_server-IsHealthy one-read (omega arith) voted_model-found
      refl

one-served : serve_blob voted_server.app "1" model_column ≡ ok (blob_response (1 ∷ 2 ∷ []))
unfolding serve_blob answer_blob parse_int read_digits Store.get validated
one-served = refl

gallery_immutable_example :
    (serve_blob
        (run_events some_lib voting default_config plain_target whole_seconds some_events
          voted_server).app
        "1"
        model_column
      ≡ ok (blob_response (1 ∷ 2 ∷ [])))
    ⊎ (serve_blob
          (run_events some_lib voting default_config plain_target whole_seconds some_events
            voted_server).app
          "1"
          model_column
        ≡ ok (error 404 "not_found"))
gallery_immutable_example =
    gallery_immutable some_lib voting default_config plain_target whole_seconds some_events
      voted_server "1" model_column (1 ∷ 2 ∷ []) one-served

gallery_deleted_example :
    serve_blob
      (run_events some_lib voting default_config plain_target whole_seconds some_events
        deleted_server).app
      "1"
      model_column
    ≡ ok (error 404 "not_found")
gallery_deleted_example =
    gallery_deleted some_lib voting default_config plain_target whole_seconds 1 "1" model_column
      some_events deleted_server one-read (omega arith) refl (omega arith)
