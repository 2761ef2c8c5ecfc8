-- ===== src/Tests/Wire.antt =====
-- The theorem on the refusals of a connection, at one of them.
use tessera_server.Common.{◌≡◌, some, [], ◌∷◌, ◌++◌}
use tessera_server.Bytes.{Bytes}
use tessera_server.Json.{Json}
use tessera_server.Dispatch.Wire.{refuse}
use tessera_server.Dispatch.Wire.Framing.{read_reply, status_line, read_reply-refuse}

-- A codec that writes every document as an empty object.
abbrev terse : Json → Bytes
terse document = 123 ∷ 125 ∷ []

read_reply-refuse_example :
    read_reply (refuse terse 400 "bad_request" "empty" ++ (72 ∷ 84 ∷ []))
    ≡ some (status_line 400, 123 ∷ 125 ∷ [], 72 ∷ 84 ∷ [])
read_reply-refuse_example = read_reply-refuse terse 400 "bad_request" "empty" (72 ∷ 84 ∷ [])
