-- ===== src/Dispatch/Wire.antt =====
-- _refuse, parse_request and _send of src/tessera/http_server.py: what goes over the connection.
-- `dumps` stands for json.dumps and its encoding, with the separators that the caller asks for.
pub mod Framing
use tessera_server.Common.{
  ℕ, String, Bool, true, false, ◌&&◌, ◌||◌, List, [], ◌∷◌, ◌++◌, Result, ok, raise, length, leb,
  ◌==◌, str_eq, if◌then◌else◌,
}
use tessera_server.Common.Int.{pos}
use tessera_server.Bytes.{Bytes}
use tessera_server.Bytes.Codec.{encode_utf8}
use tessera_server.Bytes.Numbers.{decimal}
use tessera_server.Json.{Json, obj, field, end, str}
use tessera_server.Http.{Response, Payload, json, blob}

abbrev pub crlf : Bytes
crlf = 13 ∷ 10 ∷ []

abbrev pub reason_phrase : ℕ → String
reason_phrase status =
    if status == 400
    then "Bad Request"
    else if status == 411
    then "Length Required"
    else if status == 413
    then "Payload Too Large"
    else "Error"

-- One byte that bytes.strip removes.
abbrev is_space_byte : ℕ → Bool
is_space_byte b = (leb 9 b && leb b 13) || b == 32

-- raw_requestline.strip() == b""
abbrev pub is_blank : Bytes → Bool
is_blank [] = true
is_blank (b ∷ bs) = is_space_byte b && is_blank bs

abbrev content_type : Payload → String
content_type (json document) = "application/json"
content_type (blob content headers) = "application/octet-stream"

abbrev extra_headers : Payload → List (String × String)
extra_headers (json document) = []
extra_headers (blob content headers) = headers

abbrev encoded : List (String × String) → List (String × Bytes)
encoded [] = []
encoded ((name, value) ∷ rest) = (name, encode_utf8 value) ∷ encoded rest

module _ (dumps : Json → Bytes) where
  abbrev pub refusal_body : String → String → Bytes
  refusal_body code detail =
      dumps (obj (field "error" (str code) (field "detail" (str detail) end)))

  -- _refuse: the bytes that it writes, before it closes the connection
  unfoldable pub refuse : ℕ → String → String → Bytes
  unfolding encode_utf8
  refuse status code detail =
      let body = refusal_body code detail in
      encode_utf8 "HTTP/1.1 "
      ++ (decimal (pos status)
          ++ (encode_utf8 " "
              ++ (encode_utf8 (reason_phrase status)
                  ++ (crlf
                      ++ (encode_utf8 "Content-Type: application/json"
                          ++ (crlf
                              ++ (encode_utf8 "Content-Length: "
                                  ++ (decimal (pos (length body))
                                      ++ (crlf
                                          ++ (encode_utf8 "Connection: close"
                                              ++ (crlf ++ (crlf ++ body))))))))))))

  -- parse_request: the refusal of a blank line, or what `super().parse_request()` makes of it
  unfoldable pub parse_request {ℓ} : {A : Type ℓ} → (Bytes → A) → Bytes → Result Bytes A
  parse_request base raw_requestline =
      if is_blank raw_requestline
      then raise (refuse 400 "bad_request" "empty or unparseable request line")
      else ok (base raw_requestline)

  abbrev pub body_of : Payload → Bytes
  body_of (json document) = dumps document
  body_of (blob content headers) = content

-- What _send hands to send_response, send_header and the connection.
pub record Sent : Type 0 where
  pub status : ℕ
  pub headers : List (String × Bytes)
  pub body : Bytes

-- _send, for the method `command`
unfoldable pub send : (Json → Bytes) → String → Response → Sent
send dumps command response =
    let body = body_of dumps response.payload in
    record {
      status = response.status;
      headers =
          ("Content-Type", encode_utf8 (content_type response.payload))
          ∷ ("Content-Length", decimal (pos (length body)))
          ∷ ("X-Content-Type-Options", encode_utf8 "nosniff")
          ∷ ("Connection", encode_utf8 "close")
          ∷ encoded (extra_headers response.payload);
      body = if str_eq command "HEAD" then [] else body;
    }
