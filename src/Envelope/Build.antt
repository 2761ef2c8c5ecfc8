-- ===== src/Envelope/Build.antt =====
-- build_upload of src/tessera/envelope.py against parse_upload.
use tessera_server.Common.{
  ℕ, ◌+◌, ◌≤◌, ◌<◌, String, ◌≡◌, refl, ◌∙◌, false, some, ◌++◌, ok, arith, length, drop, ltb,
  length-append, take-append, drop-append, drop-drop,
}
use tessera_server.Bytes.{Bytes}
use tessera_server.Bytes.Numbers.{to_little}
use tessera_server.Config.{TesseraConfig}
use tessera_server.Json.{str, obj, Loaded, value, get, field, end}
use tessera_server.Envelope.{
  upload_magic, header_bytes, max_meta_bytes, clean_title, valid_kind, slice, parse_parts,
  parse_upload, build_upload,
}
use tessera_server.Envelope.Parse.{from-to_little}

module _ (header meta model thumb : Bytes) (sixteen : length header ≡ header_bytes) where
  abbrev whole : Bytes
  whole = header ++ (meta ++ (model ++ thumb))

  length-whole : length whole ≡ header_bytes + length meta + length model + length thumb
  length-whole = omega (
    arith,
    sixteen,
    length-append header (meta ++ (model ++ thumb)),
    length-append meta (model ++ thumb),
    length-append model thumb,
  )

  after_header : drop header_bytes whole ≡ meta ++ (model ++ thumb)
  after_header = drop-append header_bytes header _ sixteen

  after_meta : drop (header_bytes + length meta) whole ≡ model ++ thumb
  after_meta =
      rw (← drop-drop header_bytes (length meta) whole, after_header)
        (drop-append (length meta) meta (model ++ thumb) refl)

  after_model : drop (header_bytes + length meta + length model) whole ≡ thumb
  after_model =
      rw (← drop-drop (header_bytes + length meta) (length model) whole, after_meta)
        (drop-append (length model) model thumb refl)

  slice_meta : slice header_bytes (length meta) whole ≡ meta
  slice_meta = rw after_header (take-append (length meta) meta (model ++ thumb) refl)

  slice_model : slice (header_bytes + length meta) (length model) whole ≡ model
  slice_model = rw after_meta (take-append (length model) model thumb refl)

  module _ (loads : Bytes → Loaded) (cfg : TesseraConfig) (title kind t : String) where
    parse_parts-whole :
        loads meta ≡ value (obj (field "title" (str title) (field "kind" (str kind) end)))
        → valid_kind (some (str kind)) ≡ ok kind
        → clean_title (some (str title)) ≡ ok t
        → length meta ≤ max_meta_bytes
        → 0 < length model
        → length model ≤ cfg.max_model_bytes
        → 0 < length thumb
        → length thumb ≤ cfg.max_thumb_bytes
        → parse_parts loads cfg whole (length meta) (length model) (length thumb)
          ≡ ok (record { title = t; kind = kind; model = model; thumb = thumb })
    unfolding parse_parts get
    parse_parts-whole json k c m b b' d d' =
        ground (arith, length-whole, slice_meta, slice_model, after_model)

-- The header that build_upload writes, with the three lengths.
abbrev header_of : ℕ → ℕ → ℕ → Bytes
header_of a b c = upload_magic ++ (to_little 4 a ++ (to_little 4 b ++ to_little 4 c))

long_enough :
    (a b c : ℕ) (rest : Bytes) → ltb (length (header_of a b c ++ rest)) header_bytes ≡ false
unfolding to_little
long_enough a b c rest = ground arith

parse_header :
    (loads : Bytes → Loaded) (cfg : TesseraConfig) (a b c : ℕ) (rest : Bytes)
    → a < 4294967296
    → b < 4294967296
    → c < 4294967296
    → parse_upload loads cfg (header_of a b c ++ rest)
      ≡ parse_parts loads cfg (header_of a b c ++ rest) a b c
unfolding parse_upload to_little
parse_header loads cfg a b c rest p q r =
    rw (from-to_little a p, from-to_little b q, from-to_little c r) (rw (long_enough a b c rest))

length-header_of : (a b c : ℕ) → length (header_of a b c) ≡ header_bytes
unfolding to_little
length-header_of a b c = refl

build_upload_layout :
    (dumps : String → String → Bytes) (title kind : String) (model thumb body : Bytes)
    → build_upload dumps title kind model thumb ≡ some body
    → (length model < 4294967296)
      × (length thumb < 4294967296)
      × (body
          ≡ header_of (length (dumps title kind)) (length model) (length thumb)
            ++ (dumps title kind ++ (model ++ thumb)))
unfolding build_upload to_little
build_upload_layout dumps title kind model thumb body h = ground arith

-- What build_upload makes of a title, a kind and two blobs, parse_upload splits into the same two
-- blobs, the same kind and the cleaned title, if the blobs are not empty and within the ceilings
-- and json.loads reads back what json.dumps wrote.
pub parse-build :
    (loads : Bytes → Loaded) (dumps : String → String → Bytes) (cfg : TesseraConfig)
    (title kind t : String) (model thumb body : Bytes)
    → loads (dumps title kind)
      ≡ value (obj (field "title" (str title) (field "kind" (str kind) end)))
    → build_upload dumps title kind model thumb ≡ some body
    → valid_kind (some (str kind)) ≡ ok kind
    → clean_title (some (str title)) ≡ ok t
    → length (dumps title kind) ≤ max_meta_bytes
    → 0 < length model
    → length model ≤ cfg.max_model_bytes
    → 0 < length thumb
    → length thumb ≤ cfg.max_thumb_bytes
    → parse_upload loads cfg body
      ≡ ok (record { title = t; kind = kind; model = model; thumb = thumb })
unfolding build_upload
parse-build loads dumps cfg title kind t model thumb body json built k c m b b' d d' =
    let meta = dumps title kind in
    let (fits, fits', made) = build_upload_layout dumps title kind model thumb body built in
    let header = header_of (length meta) (length model) (length thumb) in
    rw made (
      parse_header loads cfg (length meta) (length model) (length thumb) (meta ++ (model ++ thumb))
        (omega (arith, m)) fits fits'
      ∙ parse_parts-whole header meta model thumb
          (length-header_of (length meta) (length model) (length thumb)) loads cfg title kind t json
          k c m b b' d d')
