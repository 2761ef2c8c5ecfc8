-- ===== src/Envelope.antt =====
-- src/tessera/envelope.py: the upload format. `loads` stands for decoding bytes as UTF-8 JSON, and
-- `dumps` for what json.dumps makes of a title and a kind.
pub mod Parse
pub mod Build
use tessera_server.Common.{
  ℕ, ◌+◌, String, Bool, true, false, ◌&&◌, ◌||◌, not, Option, none, some, List, [], ◌∷◌, ◌++◌,
  Result, ok, raise, ◌>>=◌, ◌>>◌, raise_if, length, take, drop, ltb, ◌==◌, str_eq, if◌then◌else◌,
}
use tessera_server.Common.Text
use tessera_server.Bytes.{Bytes}
use tessera_server.Bytes.Numbers.{from_little, to_little}
use tessera_server.Config.{TesseraConfig}
use tessera_server.Json.{Json, str, arr, obj, Fields, Loaded, value, decode_error, other_error, get}

-- EnvelopeError, or an exception of another class.
pub data EnvelopeFault : Type 0 where
  envelope_error uncaught : EnvelopeFault

pub record UploadEnvelope : Type 0 where
  pub title : String
  pub kind : String
  pub model : Bytes
  pub thumb : Bytes

-- b"TSU1"
abbrev pub upload_magic : Bytes
upload_magic = 84 ∷ 83 ∷ 85 ∷ 49 ∷ []

abbrev pub header_bytes : ℕ
header_bytes = 16

abbrev pub max_meta_bytes : ℕ
max_meta_bytes = 4096

abbrev pub max_title_chars : ℕ
max_title_chars = 64

-- bytes == bytes
abbrev pub bytes_eq : Bytes → Bytes → Bool
bytes_eq [] [] = true
bytes_eq (a ∷ xs) (b ∷ ys) = a == b && bytes_eq xs ys
bytes_eq _ _ = false

-- _clean_title
unfoldable pub clean_title : Option Json → Result EnvelopeFault String
clean_title (some (str raw)) = do
  raise_if (Text.any Text.is_control raw) envelope_error
  let title = Text.strip raw
  raise_if (str_eq title "") envelope_error
  ok (Text.take max_title_chars title)
clean_title _ = raise envelope_error

abbrev loaded : Loaded → Result EnvelopeFault Json
loaded (value v) = ok v
loaded decode_error = raise envelope_error
loaded other_error = raise uncaught

abbrev object : Json → Result EnvelopeFault Fields
object (obj fields) = ok fields
object _ = raise envelope_error

-- `kind not in VALID_KINDS`: a frozenset hashes what it looks for, and hash() of a list or a dict
-- raises TypeError.
unfoldable pub valid_kind : Option Json → Result EnvelopeFault String
valid_kind (some (str kind)) =
    if str_eq kind "pixel" || str_eq kind "model" then ok kind else raise envelope_error
valid_kind (some (arr items)) = raise uncaught
valid_kind (some (obj fields)) = raise uncaught
valid_kind _ = raise envelope_error

-- body[start:start + count]
abbrev pub slice : ℕ → ℕ → Bytes → Bytes
slice start count body = take count (drop start body)

module _ (loads : Bytes → Loaded) where
  -- parse_upload from the declared lengths on
  unfoldable pub parse_parts :
      TesseraConfig → Bytes → ℕ → ℕ → ℕ → Result EnvelopeFault UploadEnvelope
  parse_parts cfg body meta_len model_len thumb_len = do
    raise_if (ltb max_meta_bytes meta_len) envelope_error
    raise_if (ltb cfg.max_model_bytes model_len) envelope_error
    raise_if (ltb cfg.max_thumb_bytes thumb_len) envelope_error
    raise_if (not (length body == header_bytes + meta_len + model_len + thumb_len)) envelope_error
    document ← loaded (loads (slice header_bytes meta_len body))
    meta ← object document
    kind ← valid_kind (get "kind" meta)
    raise_if (model_len == 0) envelope_error
    raise_if (thumb_len == 0) envelope_error
    title ← clean_title (get "title" meta)
    ok (record {
      title = title;
      kind = kind;
      model = slice (header_bytes + meta_len) model_len body;
      thumb = drop (header_bytes + meta_len + model_len) body;
    })

  -- parse_upload
  unfoldable pub parse_upload : TesseraConfig → Bytes → Result EnvelopeFault UploadEnvelope
  parse_upload cfg body = do
    raise_if (ltb (length body) header_bytes) envelope_error
    raise_if (not (bytes_eq (take 4 body) upload_magic)) envelope_error
    parse_parts cfg body (from_little (slice 4 4 body)) (from_little (slice 8 4 body))
        (from_little (slice 12 4 body))

-- n.to_bytes(4, "little"); `none` is OverflowError
abbrev pub four_bytes : ℕ → Option Bytes
four_bytes n = if ltb n 4294967296 then some (to_little 4 n) else none

-- build_upload
unfoldable pub build_upload :
    (String → String → Bytes) → String → String → Bytes → Bytes → Option Bytes
build_upload dumps title kind model thumb =
    let meta = dumps title kind in
    elim (four_bytes (length meta)) [
      | none ↦ none
      | some a ↦ elim (four_bytes (length model)) [
        | none ↦ none
        | some b ↦ elim (four_bytes (length thumb)) [
          | none ↦ none
          | some c ↦ some (upload_magic ++ (a ++ (b ++ (c ++ (meta ++ (model ++ thumb))))))
        ]
      ]
    ]
