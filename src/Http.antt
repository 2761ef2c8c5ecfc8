-- ===== src/Http.antt =====
-- The parts of src/tessera/http_server.py that the handlers are written against.
use tessera_server.Common.{ℕ, String, List}
use tessera_server.Bytes.{Bytes}
use tessera_server.Json.{Json, obj, field, end, str, Fields}

-- A body: a JSON document, or the bytes of a blob with its extra headers.
pub data Payload : Type 0 where
  json : Json → Payload
  blob : Bytes → List (String × String) → Payload

pub record Response : Type 0 where
  pub status : ℕ
  pub payload : Payload

-- json_response
abbrev pub json_response : ℕ → Fields → Response
json_response status fields = record { status = status; payload = json (obj fields) }

-- error, without its human-readable detail
abbrev pub error : ℕ → String → Response
error status code = json_response status (field "error" (str code) end)

-- An exception that no handler catches; the dispatcher answers it with 500.
pub data Uncaught : Type 0 where
  exception : Uncaught
