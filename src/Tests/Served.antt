-- ===== src/Tests/Served.antt =====
-- The theorems on the signed routes, at an administrator's request.
use tessera_server.Common.{◌≡◌, ◌⊎◌, refl, [], ◌∷◌, ok, true, false, str_eq}
use tessera_server.Common.Table.{exists_where}
use tessera_server.Bytes.{Bytes}
use tessera_server.Config.{TesseraConfig, default_config}
use tessera_server.Signing.{
  SignedIdentity, verify_signed_request, authenticate, signature_ok, canonical_message,
  parse_signature_headers, lower_hex,
}
use tessera_server.Json.{Loaded, value, obj, field, end, str, number}
use tessera_server.Db.{deleted, is_banned}
use tessera_server.Routes.Banned.{banned_powerless}
use tessera_server.Replay.{check_and_record}
use tessera_server.Hydro.{hash32, sign_verify, context_bytes, fixed}
use tessera_server.Bytes.Codec.{encode_ascii, from_hex, hex, hex_digit, digit_value}
use tessera_server.Bytes.Numbers.{parse_int, read_digits}
use tessera_server.Upload.{App}
use tessera_server.Routes.{vote, admin_action, needs_admin, with_nonces, handle, serve}
use tessera_server.Routes.Guarded.{serve_guarded}
use tessera_server.Tests.Fixtures.{some_lib, some_key, some_model, some_db, request_at}

abbrev admin_config : TesseraConfig
admin_config = record default_config { admin_keys = some_key ∷ [] }

-- Every body is an approval of the model 1.
abbrev approving : Bytes → Loaded
approving bs = value (obj (field "model_id" (number 1) (field "action" (str "approve") end)))

abbrev deleted_app : App
deleted_app = record {
  db = record some_db { models = record some_model { visibility = deleted } ∷ [] };
  blobs = [];
}

serve_guarded_example :
    ((serve some_lib approving admin_config admin_action (request_at "990") 1000 deleted_app).1
      ≡ with_nonces deleted_app
          (verify_signed_request some_lib admin_config (request_at "990") 1000 []).1)
    ⊎ ((id : SignedIdentity) × ((verify_signed_request some_lib admin_config
            (request_at "990")
            1000
            []).0
          ≡ ok id)
        × ((needs_admin admin_action ≡ false)
            ⊎ (exists_where (λ k. str_eq k id.key_hex) (some_key ∷ []) ≡ true))
        × (serve some_lib approving admin_config admin_action (request_at "990") 1000 deleted_app
            ≡ handle some_lib approving admin_config admin_action
                (request_at "990")
                id.key_hex
                1000
                (with_nonces deleted_app
                  (verify_signed_request some_lib admin_config (request_at "990") 1000 []).1)))
serve_guarded_example =
    serve_guarded some_lib approving admin_config admin_action (request_at "990") 1000 deleted_app

abbrev banned_app : App
banned_app = record {
  db = record some_db { bans = record { key = some_key; reason = ""; created_at = 1 } ∷ [] };
  blobs = [];
}

abbrev some_identity : SignedIdentity
some_identity = record { key_hex = some_key; is_admin = false }

banned_app-verified :
    (verify_signed_request some_lib default_config (request_at "990") 1000 []).0 ≡ ok some_identity
unfolding verify_signed_request authenticate signature_ok canonical_message hash32 sign_verify
    context_bytes fixed parse_signature_headers lower_hex parse_int read_digits from_hex digit_value
    check_and_record encode_ascii hex hex_digit
banned_app-verified = refl

banned_app-IsBanned : is_banned banned_app.db some_key ≡ true
unfolding is_banned
banned_app-IsBanned = refl

banned_powerless_example :
    (serve some_lib approving default_config vote (request_at "990") 1000 banned_app).1
    ≡ with_nonces banned_app
        (verify_signed_request some_lib default_config (request_at "990") 1000 []).1
banned_powerless_example =
    banned_powerless some_lib approving default_config vote (request_at "990") 1000 banned_app
      some_identity refl banned_app-verified banned_app-IsBanned
