-- ===== src/Tests/Fixtures.antt =====
-- A key, a cryptographic library, signed requests and a gallery of one model.
use tessera_server.Common.{
  ℕ, zero, suc, ◌%◌, String, Option, none, some, [], ◌∷◌, Result, length, str_eq, if◌then◌else◌,
}
use tessera_server.Common.Int.{pos}
use tessera_server.Bytes.{Bytes}
use tessera_server.Hydro.{HydroLib, HydroFault, hash32}
use tessera_server.Signing.{SignedRequest}
use tessera_server.Db.{Db, Model, public, empty_db}

abbrev pub some_key : String
some_key = "aaaaaaaaaaaaaaaaaaaaaaaaaaaaaaaaaaaaaaaaaaaaaaaaaaaaaaaaaaaaaaaa"

abbrev pub other_key : String
other_key = "dddddddddddddddddddddddddddddddddddddddddddddddddddddddddddddddd"

abbrev pub some_sig : String
some_sig =
    "bbbbbbbbbbbbbbbbbbbbbbbbbbbbbbbbbbbbbbbbbbbbbbbbbbbbbbbbbbbbbbbbbbbbbbbbbbbbbbbbbbbbbbbbbbbbbbbbbbbbbbbbbbbbbbbbbbbbbbbbbbbbbbbb"

abbrev pub some_nonce : String
some_nonce = "cccccccccccccccccccccccccccccccc"

abbrev zeros : ℕ → Bytes
zeros zero = []
zeros (suc n) = 0 ∷ zeros n

-- A library that accepts every signature and hashes a text to its length.
abbrev pub some_lib : HydroLib
some_lib = record {
  hydro_sign_create = λ message ctx sk. (0, zeros 64);
  hydro_sign_verify = λ sig message ctx pk. 0;
  hydro_hash_hash = λ message ctx. (0, (length message % 256) ∷ zeros 31);
}

abbrev pub some_hasher : Bytes → Result HydroFault Bytes
some_hasher content = hash32 some_lib content "tessera1"

abbrev pub headers_at : String → String → Option String
headers_at ts name =
    if str_eq name "X-Tessera-Key"
    then some some_key
    else if str_eq name "X-Tessera-Sig"
    then some some_sig
    else if str_eq name "X-Tessera-Ts"
    then some ts
    else if str_eq name "X-Tessera-Nonce"
    then some some_nonce
    else none

-- A request with the timestamp `ts`.
abbrev pub request_at : String → SignedRequest
request_at ts = record {
  method = "POST";
  path = "/vote";
  headers = headers_at ts;
  query = λ name. [];
  body = 123 ∷ 125 ∷ [];
}

abbrev pub some_model : Model
some_model = record {
  id = 1;
  model_hash = "0200000000000000000000000000000000000000000000000000000000000000";
  thumb_hash = "0900000000000000000000000000000000000000000000000000000000000000";
  title = "cube";
  author_key = some_key;
  kind = "model";
  model_bytes = 2;
  thumb_bytes = 9;
  created_at = 1000;
  score = pos 0;
  up_votes = 0;
  down_votes = 0;
  visibility = public;
}

abbrev pub some_db : Db
some_db = record empty_db { models = some_model ∷ []; last_id = 1 }
