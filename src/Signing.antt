-- ===== src/Signing.antt =====
-- src/tessera/signing.py: the four headers, the canonical message and the verification.
pub mod Accepted
pub mod Replayed
pub mod Message
use tessera_server.Common.{
  ℕ, ◌*◌, String, Bool, true, false, ◌||◌, not, Option, none, some, List, [], ◌∷◌, ◌++◌, Result, ok,
  raise, ◌>>=◌, ◌>>◌, raise_if, ltb, ◌==◌, str_eq, if◌then◌else◌,
}
use tessera_server.Common.Int.{ℤ, abs_diff}
use tessera_server.Common.Table.{exists_where}
use tessera_server.Common.Text
use tessera_server.Bytes.{Bytes}
use tessera_server.Bytes.Codec.{encode_ascii, encode_utf8, hex, from_hex}
use tessera_server.Bytes.Numbers.{parse_int, decimal}
use tessera_server.Config.{TesseraConfig}
use tessera_server.Hydro.{
  HydroLib, HydroFault, hydro_error, unicode_error, hash32, sign_verify, sign_bytes,
  sign_publickeybytes,
}
use tessera_server.Replay.{Nonce, check_and_record}

-- SignatureError with its status and code, or an exception that nothing here catches.
pub data Refusal : Type 0 where
  signature_error : ℕ → String → Refusal
  uncaught : Refusal

pub record SignedIdentity : Type 0 where
  pub key_hex : String
  pub is_admin : Bool

abbrev pub malformed : Refusal
malformed = signature_error 400 "malformed_signature"

abbrev pub stale : Refusal
stale = signature_error 401 "stale_timestamp"

abbrev pub bad_signature : Refusal
bad_signature = signature_error 401 "bad_signature"

abbrev pub replayed : Refusal
replayed = signature_error 409 "replayed"

abbrev pub nonce_hex_len : ℕ
nonce_hex_len = 32

-- A request as the handler's thread has it: `headers name` is the value of the header, if it is
-- there.
pub record SignedRequest : Type 0 where
  pub method : String
  pub path : String
  pub headers : String → Option String
  pub query : String → List String
  pub body : Bytes

abbrev newline : ℕ
newline = 10

abbrev ascii : Option Bytes → Result Refusal Bytes
ascii none = raise uncaught
ascii (some bs) = ok bs

-- The bytes of SIGNED_PREFIX, "tessera-v1".
abbrev signed_prefix : Bytes
signed_prefix = 116 ∷ 101 ∷ 115 ∷ 115 ∷ 101 ∷ 114 ∷ 97 ∷ 45 ∷ 118 ∷ 49 ∷ []

-- b"\n".join of six parts
unfoldable pub join_lines : Bytes → Bytes → Bytes → Bytes → Bytes → Bytes → Bytes
join_lines a b c d e f =
    a ++ (newline ∷ (b ++ (newline ∷ (c ++ (newline ∷ (d ++ (newline ∷ (e ++ (newline ∷ f)))))))))

-- canonical_message
unfoldable pub canonical_message : String → String → ℤ → String → String → Result Refusal Bytes
unfolding join_lines
canonical_message method path timestamp nonce_hex body_hash_hex = do
  method_bytes ← ascii (encode_ascii method)
  nonce_bytes ← ascii (encode_ascii nonce_hex)
  hash_bytes ← ascii (encode_ascii body_hash_hex)
  ok (
      join_lines signed_prefix method_bytes (encode_utf8 path) (decimal timestamp) nonce_bytes
        hash_bytes)

-- _lower_hex
unfoldable pub lower_hex : String → ℕ → Result Refusal String
lower_hex value expected_len = do
  raise_if (not (Text.length value == expected_len) || not (Text.all Text.is_lower_hex value))
      malformed
  ok value

abbrev required : Option String → Result Refusal String
required none = raise malformed
required (some value) = ok value

abbrev int_or_malformed : Option ℤ → Result Refusal ℤ
int_or_malformed none = raise malformed
int_or_malformed (some n) = ok n

-- The four signature headers, checked and decoded.
pub record SignatureHeaders : Type 0 where
  pub key_hex : String
  pub signature : Bytes
  pub timestamp : ℤ
  pub nonce_hex : String

unfoldable pub parse_signature_headers : (String → Option String) → Result Refusal SignatureHeaders
unfolding lower_hex
parse_signature_headers headers = do
  key_raw ← required (headers "X-Tessera-Key")
  sig_raw ← required (headers "X-Tessera-Sig")
  ts_raw ← required (headers "X-Tessera-Ts")
  nonce_raw ← required (headers "X-Tessera-Nonce")
  key_hex ← lower_hex (Text.strip key_raw) (sign_publickeybytes * 2)
  sig_hex ← lower_hex (Text.strip sig_raw) (sign_bytes * 2)
  nonce_hex ← lower_hex (Text.strip nonce_raw) nonce_hex_len
  timestamp ← int_or_malformed (parse_int (Text.strip ts_raw))
  ok (record {
    key_hex = key_hex;
    signature = from_hex sig_hex;
    timestamp = timestamp;
    nonce_hex = nonce_hex;
  })

-- `except HydroError`; any other exception goes through
abbrev pub from_hydro {ℓ} : {A : Type ℓ} → Result HydroFault A → Result Refusal A
from_hydro (ok a) = ok a
from_hydro (raise hydro_error) = raise malformed
from_hydro (raise unicode_error) = raise uncaught

module _ (lib : HydroLib) (cfg : TesseraConfig) where
  -- The `try` block: does the signature in the headers verify over the canonical message?
  unfoldable pub signature_ok : SignedRequest → SignatureHeaders → Result Refusal Bool
  signature_ok req h = do
    body_hash ← from_hydro (hash32 lib req.body cfg.sign_context)
    message ← canonical_message req.method req.path h.timestamp h.nonce_hex (hex body_hash)
    from_hydro (sign_verify lib h.signature message cfg.sign_context (from_hex h.key_hex))

  -- Everything that verify_signed_request does before it touches the nonce table.
  unfoldable pub authenticate : SignedRequest → ℕ → Result Refusal SignatureHeaders
  authenticate req now = do
    h ← parse_signature_headers req.headers
    raise_if (ltb cfg.replay_window_secs (abs_diff now h.timestamp)) stale
    verified ← signature_ok req h
    raise_if (not verified) bad_signature
    ok h

  -- verify_signed_request
  unfoldable pub verify_signed_request :
      SignedRequest → ℕ → List Nonce → Result Refusal SignedIdentity × List Nonce
  verify_signed_request req now rows = elim (authenticate req now) [
    | raise e ↦ (raise e, rows)
    | ok h ↦
        let (fresh, rows') =
          check_and_record h.key_hex h.nonce_hex now cfg.replay_window_secs rows in
        if fresh
        then (
          ok (record {
            key_hex = h.key_hex;
            is_admin = exists_where (λ k. str_eq k h.key_hex) cfg.admin_keys;
          }),
          rows',
        )
        else (raise replayed, rows')
  ]
