-- ===== src/Envelope/Parse.antt =====
-- What parse_upload of src/tessera/envelope.py makes of a body.
use tessera_server.Common.{
  ℕ, ◌+◌, ◌≤◌, ◌<◌, String, ◌≡◌, false, ◌⊎◌, inl, inr, Option, some, List, ◌++◌, ok, arith, length,
  take, drop, str_eq, Bool-cases, eq_iff, length-take, length-drop, take-append-drop, drop-drop,
}
use tessera_server.Common.Text
use tessera_server.Common.Text.Laws.{any-take, any-strip, length-take-le, length-take-pos}
use tessera_server.Bytes.{Bytes}
use tessera_server.Bytes.Numbers.{from_little, to_little}
use tessera_server.Config.{TesseraConfig}
use tessera_server.Json.{Json, str, obj, Fields, Loaded, value, get, end}
use tessera_server.Envelope.{
  UploadEnvelope, header_bytes, max_title_chars, clean_title, valid_kind, slice, parse_parts,
  parse_upload,
}

-- The lengths in the header are read back.
pub from-to_little : (n : ℕ) → n < 4294967296 → from_little (to_little 4 n) ≡ n
unfolding from_little to_little
from-to_little n h = omega arith

split_rest :
    (a b : ℕ) (body : Bytes)
    → slice (header_bytes + a) b body ++ drop (header_bytes + a + b) body
      ≡ drop (header_bytes + a) body
split_rest a b body =
    rw (← drop-drop (header_bytes + a) b body) (take-append-drop b (drop (header_bytes + a) body))

abbrev meta_fields : Loaded → Fields
meta_fields (value (obj fields)) = fields
meta_fields _ = end

valid_kind_cases :
    (o : Option Json) (k : String) → valid_kind o ≡ ok k → (k ≡ "pixel") ⊎ (k ≡ "model")
unfolding valid_kind
valid_kind_cases (some (str s)) k h = ground (arith, eq_iff s "pixel", eq_iff s "model")
valid_kind_cases _ k h = cc

clean_title_bounds :
    (o : Option Json) (t : String)
    → clean_title o ≡ ok t
    → (0 < Text.length t) × (Text.length t ≤ max_title_chars) × (Text.any Text.is_control t ≡ false)
unfolding clean_title
clean_title_bounds (some (str s)) t h = elim (Bool-cases (Text.any Text.is_control s)) [
  | inl bad ↦ absurd (ground arith)
  | inr good ↦ elim (Bool-cases (str_eq (Text.strip s) "")) [
    | inl blank ↦ absurd (ground arith)
    | inr kept ↦
        let same : t ≡ Text.take max_title_chars (Text.strip s) = ground arith in
        rw same (
          length-take-pos max_title_chars (Text.strip s) (omega arith)
              (λ e. ground (arith, eq_iff (Text.strip s) "")),
          length-take-le max_title_chars (Text.strip s),
          any-take Text.is_control max_title_chars (Text.strip s)
              (any-strip Text.is_control s good),
        )
  ]
]
clean_title_bounds _ t h = cc

-- A body cut at two places.
split_three :
    {A : Type 0} (n m : ℕ) (body : List A)
    → body ≡ take n body ++ (take m (drop n body) ++ drop (n + m) body)
split_three n m body =
    rw (← drop-drop n m body, take-append-drop m (drop n body), take-append-drop n body)

module _ (loads : Bytes → Loaded) (cfg : TesseraConfig) where
  parse_parts-lengths :
      (body : Bytes) (a b c : ℕ) (e : UploadEnvelope)
      → parse_parts loads cfg body a b c ≡ ok e
      → (0 < b)
        × (b ≤ cfg.max_model_bytes)
        × (0 < c)
        × (c ≤ cfg.max_thumb_bytes)
        × (length body ≡ header_bytes + a + b + c)
        × (e.model ≡ slice (header_bytes + a) b body)
        × (e.thumb ≡ drop (header_bytes + a + b) body)
  unfolding parse_parts
  parse_parts-lengths body a b c e h = ground arith

  parse_parts-texts :
      (body : Bytes) (a b c : ℕ) (e : UploadEnvelope)
      → parse_parts loads cfg body a b c ≡ ok e
      → (kind : Option Json) × (title : Option Json) × (valid_kind kind ≡ ok e.kind)
        × (clean_title title ≡ ok e.title)
  unfolding parse_parts
  parse_parts-texts body a b c e h =
      let meta = meta_fields (loads (slice header_bytes a body)) in
      (get "kind" meta, get "title" meta, ground arith, ground arith)

  -- A parsed upload splits its body exactly: the 16-byte header, the metadata, the model and the
  -- thumbnail, with nothing cut off and nothing left over. Both parts hold something and keep to
  -- their ceilings, the kind is one of the two, and the title is not empty, has no control
  -- character and at most 64 characters.
  pub parse_upload_sound :
      (body : Bytes) (e : UploadEnvelope)
      → parse_upload loads cfg body ≡ ok e
      → ((header : Bytes) × (meta : Bytes) × (length header ≡ header_bytes)
          × (body ≡ header ++ (meta ++ (e.model ++ e.thumb))))
        × (0 < length e.model)
        × (length e.model ≤ cfg.max_model_bytes)
        × (0 < length e.thumb)
        × (length e.thumb ≤ cfg.max_thumb_bytes)
        × ((e.kind ≡ "pixel") ⊎ (e.kind ≡ "model"))
        × (0 < Text.length e.title)
        × (Text.length e.title ≤ max_title_chars)
        × (Text.any Text.is_control e.title ≡ false)
  unfolding parse_upload
  parse_upload_sound body e h =
      let a = from_little (slice 4 4 body) in
      let b = from_little (slice 8 4 body) in
      let c = from_little (slice 12 4 body) in
      let parts : parse_parts loads cfg body a b c ≡ ok e = ground arith in
      let (b_pos, b_le, c_pos, c_le, total, model, thumb) =
        parse_parts-lengths body a b c e parts in
      let (kind, title, k, t) = parse_parts-texts body a b c e parts in
      let (t_pos, t_le, t_clean) = clean_title_bounds title e.title t in
      let layout : body
          ≡ take header_bytes body ++ (slice header_bytes a body ++ (e.model ++ e.thumb)) =
        rw (model, thumb) (rw (split_rest a b body) (split_three header_bytes a body)) in
      (
        (
          take header_bytes body,
          slice header_bytes a body,
          length-take header_bytes body (omega (arith, total)),
          layout,
        ),
        rw
            (
              model,
              length-take b (drop (header_bytes + a) body)
                  (omega (arith, total, length-drop (header_bytes + a) body)),
            )
            b_pos,
        rw
            (
              model,
              length-take b (drop (header_bytes + a) body)
                  (omega (arith, total, length-drop (header_bytes + a) body)),
            )
            b_le,
        rw (thumb, length-drop) (omega (arith, total, c_pos)),
        rw (thumb, length-drop) (omega (arith, total, c_le)),
        valid_kind_cases kind e.kind k,
        t_pos,
        t_le,
        t_clean,
      )
