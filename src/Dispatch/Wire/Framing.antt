-- ===== src/Dispatch/Wire/Framing.antt =====
-- How a client reads what _refuse of src/tessera/http_server.py writes, and what a PROXY header does
-- where none is expected.
use tessera_server.Common.{
  ℕ, zero, suc, ◌≤◌, ◌<◌, ◌≡◌, refl, ap, ap₂, take-append, drop-append, ◌∙◌, String, ◌&&◌, Option,
  none, some, List, [], ◌∷◌, ◌++◌, raise, arith, All, length, take, drop, ◌==◌, Bool-cases, inl,
  inr, if◌then◌else◌,
}
use mathlib.Core.List.{append_assoc}
use tessera_server.Common.Int.{pos, pos_part}
use tessera_server.Bytes.{Bytes}
use tessera_server.Bytes.Codec.{encode_utf8, utf8_char}
use tessera_server.Bytes.Numbers.{decimal}
use tessera_server.Bytes.Numbers.Decimal.{read_integer, read-decimal, decimal_printable}
use tessera_server.Envelope.{bytes_eq}
use tessera_server.Json.{Json}
use tessera_server.ProxyProto.{ppv2_signature}
use tessera_server.Dispatch.Wire.{crlf, reason_phrase, refusal_body, refuse, parse_request}

onto_line : ℕ → Option (Bytes × Bytes) → Option (Bytes × Bytes)
onto_line c none = none
onto_line c (some (line, rest)) = some (c ∷ line, rest)

-- A line up to its CRLF, and what follows.
unfoldable pub cut_line : Bytes → Option (Bytes × Bytes)
unfolding onto_line
cut_line [] = none
cut_line (c ∷ []) = none
cut_line (c ∷ d ∷ s) =
    let later = onto_line c (cut_line (d ∷ s)) in if c == 13 && d == 10 then some ([], s) else later

abbrev pub IsPlain : Bytes → Type 0
IsPlain = All (λ b. 14 ≤ b)

cut_line-append :
    (line rest : Bytes) → IsPlain line → cut_line (line ++ (crlf ++ rest)) ≡ some (line, rest)
unfolding cut_line onto_line
cut_line-append [] rest h = refl
cut_line-append (c ∷ []) rest h = ground (arith, h.0)
cut_line-append (c ∷ d ∷ line) rest h = ground (arith, h.0, cut_line-append (d ∷ line) rest h.1)

cons_line : Bytes → Option (List Bytes × Bytes) → Option (List Bytes × Bytes)
cons_line line none = none
cons_line line (some (lines, rest)) = some (line ∷ lines, rest)

-- The header lines up to the empty one, at most as many as the limit.
read_head : ℕ → Bytes → Option (List Bytes × Bytes)
unfolding cons_line
read_head zero bs = none
read_head (suc limit) bs = elim (cut_line bs) [
  | none ↦ none
  | some ([], rest) ↦ some ([], rest)
  | some (c ∷ line, rest) ↦ cons_line (c ∷ line) (read_head limit rest)
]

-- The value of the first header line with this name.
header_value : Bytes → List Bytes → Option Bytes
header_value name [] = none
header_value name (line ∷ lines) =
    let later = header_value name lines in
    if bytes_eq (take (length name) line) name then some (drop (length name) line) else later

-- A reply, as a client reads it that stops after 100 header lines: the status line, and as much
-- of what follows the head as Content-Length announces.
unfoldable pub read_reply : Bytes → Option (Bytes × Bytes × Bytes)
unfolding read_head header_value
read_reply bs = elim (cut_line bs) [
  | none ↦ none
  | some (status_line, after) ↦ elim (read_head 100 after) [
    | none ↦ none
    | some (headers, rest) ↦ elim (header_value (encode_utf8 "Content-Length: ") headers) [
      | none ↦ none
      | some value ↦
          let n = pos_part (read_integer value) in some (status_line, take n rest, drop n rest)
    ]
  ]
]

read_head-line :
    (limit : ℕ) (line rest : Bytes)
    → 0 < length line
    → IsPlain line
    → read_head (suc limit) (line ++ (crlf ++ rest)) ≡ cons_line line (read_head limit rest)
unfolding read_head
read_head-line limit [] rest some_byte h = absurd (omega arith)
read_head-line limit (c ∷ line) rest some_byte h =
    rw (cut_line-append (c ∷ line) rest h, read_head) refl

read_head-end : (limit : ℕ) (rest : Bytes) → read_head (suc limit) (crlf ++ rest) ≡ some ([], rest)
unfolding read_head
read_head-end limit rest = rw (cut_line-append [] rest tt, read_head) refl

read_reply_parts :
    (bs line after rest value : Bytes) (headers : List Bytes)
    → cut_line bs ≡ some (line, after)
    → read_head 100 after ≡ some (headers, rest)
    → header_value (encode_utf8 "Content-Length: ") headers ≡ some value
    → read_reply bs
      ≡ some (
        line,
        take (pos_part (read_integer value)) rest,
        drop (pos_part (read_integer value)) rest,
      )
unfolding read_reply
read_reply_parts bs line after rest value headers a b c = ground arith

append-IsPlain : (a b : Bytes) → IsPlain a → IsPlain b → IsPlain (a ++ b)
append-IsPlain [] b h k = k
append-IsPlain (c ∷ a) b h k = (h.0, append-IsPlain a b h.1 k)

decimal-IsPlain : (bs : Bytes) → All (λ b. 33 ≤ b) bs → IsPlain bs
decimal-IsPlain [] h = tt
decimal-IsPlain (b ∷ bs) h = (omega (arith, h.0), decimal-IsPlain bs h.1)

reason_phrase-IsPlain : (status : ℕ) → IsPlain (encode_utf8 (reason_phrase status))
unfolding encode_utf8 utf8_char
reason_phrase-IsPlain status = elim (Bool-cases (status == 400)) [
  | inl e ↦ rw e (omega arith)
  | inr e ↦ elim (Bool-cases (status == 411)) [
    | inl f ↦ rw (e, f) (omega arith)
    | inr f ↦ elim (Bool-cases (status == 413)) [
      | inl g ↦ rw (e, f, g) (omega arith)
      | inr g ↦ rw (e, f, g) (omega arith)
    ]
  ]
]

abbrev pub status_line : ℕ → Bytes
status_line status =
    encode_utf8 "HTTP/1.1 "
    ++ (decimal (pos status) ++ (encode_utf8 " " ++ encode_utf8 (reason_phrase status)))

length_line : ℕ → Bytes
length_line n = encode_utf8 "Content-Length: " ++ decimal (pos n)

module _ (dumps : Json → Bytes) (status : ℕ) (code detail : String) where
  refuse_lines :
      (more : Bytes)
      → refuse dumps status code detail ++ more
        ≡ status_line status
          ++ (crlf
              ++ (encode_utf8 "Content-Type: application/json"
                  ++ (crlf
                      ++ (length_line (length (refusal_body dumps code detail))
                          ++ (crlf
                              ++ (encode_utf8 "Connection: close"
                                  ++ (crlf
                                      ++ (crlf ++ (refusal_body dumps code detail ++ more)))))))))
  unfolding refuse length_line
  refuse_lines more = simp append_assoc refl

  refuse-head :
      (rest : Bytes)
      → read_head 100 (
          encode_utf8 "Content-Type: application/json"
          ++ (crlf
              ++ (length_line (length (refusal_body dumps code detail))
                  ++ (crlf ++ (encode_utf8 "Connection: close" ++ (crlf ++ (crlf ++ rest)))))))
        ≡ some (
          encode_utf8 "Content-Type: application/json"
              ∷ length_line (length (refusal_body dumps code detail))
              ∷ encode_utf8 "Connection: close"
              ∷ [],
          rest,
        )
  unfolding encode_utf8 utf8_char length_line cons_line
  refuse-head rest =
      let size = length (refusal_body dumps code detail) in
      let plain_size =
        append-IsPlain (encode_utf8 "Content-Length: ") (decimal (pos size)) (omega arith)
          (decimal-IsPlain _ (decimal_printable (pos size))) in
      read_head-line 99 (encode_utf8 "Content-Type: application/json") _ (omega arith) (omega arith)
      ∙ ap (cons_line (encode_utf8 "Content-Type: application/json")) (
          read_head-line 98 (length_line size) _ (omega arith) plain_size
          ∙ ap (cons_line (length_line size)) (
              read_head-line 97 (encode_utf8 "Connection: close") _ (omega arith) (omega arith)
              ∙ ap (cons_line (encode_utf8 "Connection: close")) (read_head-end 96 rest)))

  -- A refusal is read as one reply: its status line, its body, and what follows it on the connection
  -- untouched.
  pub read_reply-refuse :
      (more : Bytes)
      → read_reply (refuse dumps status code detail ++ more)
        ≡ some (status_line status, refusal_body dumps code detail, more)
  unfolding header_value encode_utf8 utf8_char length_line
  read_reply-refuse more =
      let body = refusal_body dumps code detail in
      let plain_status : IsPlain (status_line status) =
        append-IsPlain (encode_utf8 "HTTP/1.1 ") _ (omega arith) (
          append-IsPlain (decimal (pos status)) _
            (decimal-IsPlain _ (decimal_printable (pos status)))
            (append-IsPlain (encode_utf8 " ") _ (omega arith) (reason_phrase-IsPlain status))) in
      let exact : pos_part (read_integer (decimal (pos (length body)))) ≡ length body =
        ap pos_part (read-decimal (pos (length body))) in
      let parts =
        read_reply_parts _ (status_line status) _ (body ++ more) (decimal (pos (length body))) _
          (cut_line-append (status_line status) _ plain_status) (refuse-head (body ++ more)) refl in
      ap read_reply (refuse_lines more)
      ∙ (parts
          ∙ (ap (λ (n : ℕ). some (status_line status, take n (body ++ more), drop n (body ++ more)))
                exact
              ∙ ap₂ (λ (a b : Bytes). some (status_line status, a, b))
                  (take-append (length body) body more refl)
                  (drop-append (length body) body more refl)))

-- readline, of a stream: the bytes up to the first newline, which stays.
unfoldable pub read_line : Bytes → Bytes
read_line [] = []
read_line (b ∷ bs) = let rest = read_line bs in if b == 10 then b ∷ [] else b ∷ rest

-- With the PROXY protocol off, a connection that starts with the signature of a PROXY header is
-- refused at its first line, whatever follows: nothing of it is parsed as a request.
pub parse_request_misrouted :
    {A : Type 0} (dumps : Json → Bytes) (base : Bytes → A) (more : Bytes)
    → parse_request dumps base (read_line (ppv2_signature ++ more))
      ≡ raise (refuse dumps 400 "bad_request" "empty or unparseable request line")
unfolding read_line parse_request
parse_request_misrouted dumps base more = refl
