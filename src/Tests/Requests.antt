-- ===== src/Tests/Requests.antt =====
-- The theorems on signed requests, on the nonce table and on the proxy header, at concrete inputs.
use tessera_server.Common.{
  ℕ, Bool, ◌+◌, ◌≤◌, ◌≡◌, ◌⊎◌, refl, List, [], ◌∷◌, ◌++◌, ok, raise, arith, true, false,
}
use tessera_server.Common.Int.{pos, abs_diff}
use tessera_server.Bytes.{Bytes}
use tessera_server.Config.{TesseraConfig, default_config}
use tessera_server.Hydro.{hash32, sign_verify, context_bytes, fixed}
use tessera_server.Bytes.Codec.{encode_ascii, from_hex, hex, hex_digit, digit_value}
use tessera_server.Bytes.Numbers.{parse_int, read_digits}
use tessera_server.Replay.{Nonce, check_and_record}
use tessera_server.Signing.{
  SignedIdentity, SignatureHeaders, parse_signature_headers, verify_signed_request, authenticate,
  signature_ok, canonical_message, lower_hex, stale, replayed,
}
use tessera_server.Signing.Accepted.{accepted_signed}
use tessera_server.Signing.Replayed.{verify_all, replay_refused, replay_executed}
use tessera_server.ProxyProto.{ppv2_signature, read_ppv2_header, build_ppv2_header, dotted}
use tessera_server.ProxyProto.Header.{read-build_ppv2_header}
use tessera_server.Tests.Fixtures.{some_lib, some_key, some_sig, some_nonce, request_at}

-- The headers of a request with the timestamp `ts`.
abbrev headers_of : ℕ → SignatureHeaders
headers_of ts = record {
  key_hex = some_key;
  signature = from_hex some_sig;
  timestamp = pos ts;
  nonce_hex = some_nonce;
}

abbrev some_identity : SignedIdentity
some_identity = record { key_hex = some_key; is_admin = false }

abbrev used_at : ℕ → List Nonce
used_at now = record { key = some_key; nonce = some_nonce; expires_at = now + 300 } ∷ []

past-parsed : parse_signature_headers (request_at "990").headers ≡ ok (headers_of 990)
unfolding parse_signature_headers lower_hex parse_int read_digits from_hex digit_value
past-parsed = refl

future-parsed : parse_signature_headers (request_at "1100").headers ≡ ok (headers_of 1100)
unfolding parse_signature_headers lower_hex parse_int read_digits from_hex digit_value
future-parsed = refl

past-accepted :
    verify_signed_request some_lib default_config (request_at "990") 1000 []
    ≡ (ok some_identity, used_at 1000)
unfolding verify_signed_request authenticate signature_ok canonical_message hash32 sign_verify
    context_bytes fixed parse_signature_headers lower_hex parse_int read_digits from_hex digit_value
    check_and_record encode_ascii hex hex_digit
past-accepted = refl

future-accepted :
    verify_signed_request some_lib default_config (request_at "1100") 1000 []
    ≡ (ok some_identity, used_at 1000)
unfolding verify_signed_request authenticate signature_ok canonical_message hash32 sign_verify
    context_bytes fixed parse_signature_headers lower_hex parse_int read_digits from_hex digit_value
    check_and_record encode_ascii hex hex_digit
future-accepted = refl

replay_refused_example :
    ((verify_signed_request some_lib default_config
        (request_at "990")
        1010
        (verify_all some_lib default_config ((request_at "1100", 1005) ∷ []) (used_at 1000))).0
      ≡ raise stale)
    ⊎ ((verify_signed_request some_lib default_config
          (request_at "990")
          1010
          (verify_all some_lib default_config ((request_at "1100", 1005) ∷ []) (used_at 1000))).0
        ≡ raise replayed)
replay_refused_example =
    replay_refused some_lib default_config (request_at "990") (headers_of 990) some_identity 1000
      1010 [] (used_at 1000) ((request_at "1100", 1005) ∷ []) past-accepted past-parsed
      (omega arith) (omega arith) (omega arith, tt)

replay_executed_example :
    (verify_signed_request some_lib default_config (request_at "1100") 1300 (used_at 1000)).0
    ≡ ok some_identity
replay_executed_example =
    replay_executed some_lib default_config (request_at "1100") (headers_of 1100) some_identity 1000
      [] (used_at 1000) future-accepted future-parsed (omega arith)

accepted_signed_example :
    (h : SignatureHeaders) × (body_hash : Bytes) × (message : Bytes) × (ctx : Bytes)
    × (parse_signature_headers (request_at "990").headers ≡ ok h)
    × (abs_diff 1000 h.timestamp ≤ 300)
    × ((check_and_record some_key h.nonce_hex 1000 300 []).0 ≡ true)
    × (hash32 some_lib (123 ∷ 125 ∷ []) "tessera1" ≡ ok body_hash)
    × (canonical_message "POST" "/vote" h.timestamp h.nonce_hex (hex body_hash) ≡ ok message)
    × (context_bytes "tessera1" ≡ ok ctx)
    × (some_lib.hydro_sign_verify h.signature message ctx (from_hex some_key) ≡ 0)
accepted_signed_example =
    accepted_signed some_lib default_config (request_at "990") 1000 [] (used_at 1000) some_identity
      past-accepted

-- 10.0.0.1:4660 to 10.0.0.2:443, followed by one byte.
read-build_ppv2_header_example :
    (header : Bytes) × (build_ppv2_header (10 ∷ 0 ∷ 0 ∷ 1 ∷ []) 4660 (10 ∷ 0 ∷ 0 ∷ 2 ∷ []) 443
      ≡ ok header)
    × (read_ppv2_header (header ++ 71 ∷ []) ≡ ok ((dotted (10 ∷ 0 ∷ 0 ∷ 1 ∷ []), 4660), 71 ∷ []))
read-build_ppv2_header_example =
    read-build_ppv2_header 10 0 0 1 10 0 0 2 4660 443 (71 ∷ []) (omega arith) (omega arith)

abbrev proxied : Bytes
proxied =
    ppv2_signature
    ++ (0x21 ∷ 0x11 ∷ 0 ∷ 12 ∷ 10 ∷ 0 ∷ 0 ∷ 1 ∷ 10 ∷ 0 ∷ 0 ∷ 2 ∷ 18 ∷ 52 ∷ 1 ∷ 187 ∷ 71 ∷ [])

abbrev proxied_config : TesseraConfig
proxied_config = record default_config { proxy_protocol = true }

abbrev is_any : Bytes → Bool
is_any peer = true
