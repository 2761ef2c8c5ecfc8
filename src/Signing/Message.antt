-- ===== src/Signing/Message.antt =====
-- The message that a client signs (canonical_message of src/tessera/signing.py).
use tessera_server.Common.{
  ◌≡◌, sym, ap, ◌∙◌, String, false, [], ◌∷◌, ◌++◌, ok, arith, drop, ◌==◌, Option-cases, inl, inr,
}
use tessera_server.Common.Int.{ℤ}
use tessera_server.Common.Text
use tessera_server.Bytes.{Bytes}
use tessera_server.Bytes.Codec.{encode_ascii, encode_utf8}
use tessera_server.Bytes.Codec.Utf8.{utf8-line, ascii-utf8}
use tessera_server.Bytes.Numbers.{decimal}
use tessera_server.Bytes.Numbers.Decimal.{decimal-line}
use tessera_server.Signing.{join_lines, signed_prefix, canonical_message}

-- A text without a newline, such as http.server makes of the parts of a request line, and such as a
-- hexadecimal number is.
abbrev pub IsLine : String → Type 0
IsLine s = Text.any (λ c. c == 10) s ≡ false

-- The lines of a message.
message_lines :
    (method path : String) (timestamp : ℤ) (nonce_hex body_hash_hex : String) (message : Bytes)
    → canonical_message method path timestamp nonce_hex body_hash_hex ≡ ok message
    → message
      ≡ join_lines signed_prefix
          (encode_utf8 method)
          (encode_utf8 path)
          (decimal timestamp)
          (encode_utf8 nonce_hex)
          (encode_utf8 body_hash_hex)
unfolding canonical_message
message_lines method path timestamp nonce_hex body_hash_hex message e =
    elim (Option-cases (encode_ascii method)) [
      | inl none_m ↦ absurd (ground arith)
      | inr (m, some_m) ↦ elim (Option-cases (encode_ascii nonce_hex)) [
        | inl none_n ↦ absurd (ground arith)
        | inr (n, some_n) ↦ elim (Option-cases (encode_ascii body_hash_hex)) [
          | inl none_h ↦ absurd (ground arith)
          | inr (h, some_h) ↦
              rw
                (
                  ← ascii-utf8 method m some_m,
                  ← ascii-utf8 nonce_hex n some_n,
                  ← ascii-utf8 body_hash_hex h some_h,
                )
                (ground arith)
        ]
      ]
    ]

utf8-text : (s t : String) → IsLine s → IsLine t → encode_utf8 s ≡ encode_utf8 t → s ≡ t
utf8-text s t h k e = (utf8-line s t [] [] h k (ap (λ bs. bs ++ 10 ∷ []) e)).0

-- Two requests with one canonical message have the same method, target, timestamp, nonce and body
-- hash, if these have no newline in them: a signature for a request is one for no other request.
pub canonical_message_determines :
    (method path nonce_hex body_hash_hex : String) (timestamp : ℤ)
    (method' path' nonce_hex' body_hash_hex' : String) (timestamp' : ℤ) (message : Bytes)
    → IsLine method × IsLine path × IsLine nonce_hex × IsLine body_hash_hex
    → IsLine method' × IsLine path' × IsLine nonce_hex' × IsLine body_hash_hex'
    → canonical_message method path timestamp nonce_hex body_hash_hex ≡ ok message
    → canonical_message method' path' timestamp' nonce_hex' body_hash_hex' ≡ ok message
    → (method ≡ method')
      × (path ≡ path')
      × (timestamp ≡ timestamp')
      × (nonce_hex ≡ nonce_hex')
      × (body_hash_hex ≡ body_hash_hex')
unfolding join_lines
canonical_message_determines method path nonce body time method' path' nonce' body' time' message
      (a, b, c, d) (a', b', c', d') e e' =
    let both =
      sym (message_lines method path time nonce body message e)
      ∙ message_lines method' path' time' nonce' body' message e' in
    let (same_method, after_method) = utf8-line method method' _ _ a a' (ap (drop 11) both) in
    let (same_path, after_path) = utf8-line path path' _ _ b b' after_method in
    let (same_time, after_time) = decimal-line time time' _ _ after_path in
    let (same_nonce, after_nonce) = utf8-line nonce nonce' _ _ c c' after_time in
    (same_method, same_path, same_time, same_nonce, utf8-text body body' d d' after_nonce)
