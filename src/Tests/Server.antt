-- ===== src/Tests/Server.antt =====
-- The theorems on the dispatcher and the routes, at one request and a small gallery.
use tessera_server.Common.{
  Bool, Result, raise, ℕ, ◌*◌, ◌≤◌, ◌≡◌, ◌⊎◌, refl, String, true, false, Option, some, List, [],
  ◌∷◌, ok, arith, str_eq, if◌then◌else◌,
}
use tessera_server.Common.Int.{ℤ, pos, ◌≤ℤ◌, ◌+ℤ◌}
use tessera_server.Common.Table.{exists_where}
use tessera_server.Bytes.{Bytes}
use tessera_server.Config.{default_config}
use tessera_server.Http.{Uncaught}
use tessera_server.Json.{Loaded, value, obj, field, end, number}
use tessera_server.Replay.{Nonce}
use tessera_server.Signing.{SignedIdentity, verify_signed_request}
use tessera_server.RateLimit.{Limiter, new_limiter, allow}
use tessera_server.RateLimit.Floats.{
  whole_seconds, rounded_halves, whole_tokens, rounded_halves-IsRounded,
}
use tessera_server.Db.{deleted}
use tessera_server.Content.{Query}
use tessera_server.Routes.{Endpoint, with_nonces}
use tessera_server.Dispatch.{HttpRequest, RequestContext, Server, dispatch, dispatch_on, ended}
use tessera_server.Dispatch.Limits.{IsRefused, IsHandled, dispatch_guarded}
use tessera_server.Dispatch.Answers.{IsAnswer, dispatch_answers}
use tessera_server.Dispatch.Budget.{dispatch_all, read_bytes_bounded}
use tessera_server.Dispatch.Table.{all_routes, numbered}
use tessera_server.Dispatch.Signed.{IsFor, is_admin_path, as_signed, unsigned_powerless}
use tessera_server.Tests.Fixtures.{some_lib, some_model, some_db, headers_at}

-- Every body is a vote on the model 1.
abbrev pub voting : Bytes → Loaded
voting bs = value (obj (field "model_id" (number 1) (field "value" (number 1) end)))

-- A target without a query.
abbrev pub plain_target : String → Option (String × Query)
plain_target target = some (target, λ name. [])

abbrev pub headers_of : String → Option String
headers_of name = if str_eq name "Content-Length" then some "2" else headers_at "990" name

abbrev pub voting_request : HttpRequest
voting_request = record {
  command = "POST";
  target = "/vote";
  headers = headers_of;
  stream = 123 ∷ 125 ∷ [];
  client_ip = "10.0.0.1";
}

abbrev some_server : Server ℤ
some_server = record {
  app = record { db = some_db; blobs = [] };
  limiter = new_limiter whole_seconds 4 2 (pos 1) 3 (pos 1);
}

dispatch_guarded_example :
    IsRefused plain_target default_config
      (all_routes some_lib voting default_config)
      whole_seconds
      voting_request
      (pos 100)
      some_server
      (dispatch plain_target default_config
        (all_routes some_lib voting default_config)
        whole_seconds
        voting_request
        (pos 100)
        1000
        some_server)
    ⊎ IsHandled plain_target default_config
        (all_routes some_lib voting default_config)
        whole_seconds
        voting_request
        (pos 100)
        1000
        some_server
        (dispatch plain_target default_config
          (all_routes some_lib voting default_config)
          whole_seconds
          voting_request
          (pos 100)
          1000
          some_server)
dispatch_guarded_example =
    dispatch_guarded plain_target default_config (all_routes some_lib voting default_config)
      whole_seconds voting_request (pos 100) 1000 some_server

-- The limiter lets the request through.
abbrev let_through : Result Uncaught (Bool × Limiter ℤ)
let_through = ok (allow whole_seconds some_server.limiter "10.0.0.1" (pos 100))

dispatch_answers_example :
    IsAnswer
      (dispatch_on plain_target default_config
        (all_routes some_lib voting default_config)
        voting_request
        1000
        some_server
        let_through).answer
    ⊎ ((e : Uncaught) × (let_through ≡ raise e)
        × (dispatch_on plain_target default_config
              (all_routes some_lib voting default_config)
              voting_request
              1000
              some_server
              let_through
            ≡ ended (raise e) some_server []))
dispatch_answers_example =
    dispatch_answers plain_target default_config (all_routes some_lib voting default_config)
      voting_request 1000 some_server let_through ("/vote", λ name. []) refl

-- A token in two seconds, and three roundings of one unit for each of two requests.
read_bytes_bounded_example :
    (count : ℕ) × ((dispatch_all plain_target default_config
        (all_routes some_lib voting default_config)
        rounded_halves
        ((voting_request, pos 100, 1000) ∷ (voting_request, pos 101, 1001) ∷ [])
        (record {
          app = some_server.app;
          limiter = new_limiter rounded_halves 4 2 (pos 2) 3 (pos 2);
        })).0
      ≤ 2097152 * count)
    × (pos (1 * count) ≤ℤ (pos 3 +ℤ pos 2) +ℤ pos (3 * 1 * 2))
read_bytes_bounded_example =
    read_bytes_bounded plain_target default_config (all_routes some_lib voting default_config)
      rounded_halves 1 (λ a. a) (pos 2) 3 1 whole_tokens (rounded_halves-IsRounded 3) 4 2 (pos 2)
      some_server.app (pos 100)
      ((voting_request, pos 100, 1000) ∷ (voting_request, pos 101, 1001) ∷ []) (pos 105)
      (omega arith, (omega arith, omega arith))

unsigned_powerless_example :
    ((nonces : List Nonce) × ((dispatch plain_target default_config
          (all_routes some_lib voting default_config)
          whole_seconds
          voting_request
          (pos 100)
          1000
          some_server).server.app
        ≡ with_nonces some_server.app nonces))
    ⊎ ((endpoint : Endpoint) × (path : String) × (query : Query) × (id : SignedIdentity)
        × (plain_target "/vote" ≡ some (path, query))
        × IsFor endpoint "POST" path
        × ((verify_signed_request some_lib default_config
              (as_signed some_lib voting default_config plain_target whole_seconds voting_request
                query
                (dispatch plain_target default_config
                  (all_routes some_lib voting default_config)
                  whole_seconds
                  voting_request
                  (pos 100)
                  1000
                  some_server).body_read)
              1000
              []).0
            ≡ ok id)
        × ((is_admin_path path ≡ false)
            ⊎ (exists_where (λ k. str_eq k id.key_hex) default_config.admin_keys ≡ true)))
unsigned_powerless_example =
    unsigned_powerless some_lib voting default_config plain_target whole_seconds voting_request
      (pos 100) 1000 some_server

abbrev pub deleted_server : Server ℤ
deleted_server = record some_server {
  app = record {
    db = record some_db { models = record some_model { visibility = deleted } ∷ [] };
    blobs = [];
  };
}

abbrev some_context : RequestContext
some_context = record {
  method = "GET";
  path = "/model/1";
  raw_target = "/model/1";
  query = λ name. [];
  body = [];
  headers = headers_of;
  client_ip = "10.0.0.1";
}

one-numbered : numbered "/model/" "/model/1" ≡ some (("model_id", "1") ∷ [])
unfolding numbered
one-numbered = refl
