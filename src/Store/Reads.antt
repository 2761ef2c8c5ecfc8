-- ===== src/Store/Reads.antt =====
-- What BlobStore.get of src/tessera/store.py reads after BlobStore.put.
use tessera_server.Common.{
  ◌≡◌, refl, ap, ◌∙◌, String, true, false, some, List, [], ◌∷◌, ◌++◌, Result, ok, arith, All,
  str_eq, eq_iff, eq_refl, Bool-cases, Result-cases, Option-cases, inl, inr,
}
use tessera_server.Common.Table.{exists_where, fetch_one}
use tessera_server.Bytes.{Bytes}
use tessera_server.Bytes.Codec.{hex}
use tessera_server.Hydro.{HydroFault}
use tessera_server.Store.{Blob, validated, at_digest, store_at, put, get}

-- No other content is filed under the digest.
abbrev pub FiledAs : String → Bytes → List Blob → Type 0
FiledAs digest content = All (λ b. b.digest ≡ digest → b.content ≡ content)

validated-ok : (d v : String) → validated d ≡ ok v → (v ≡ d) × (validated d ≡ ok d)
unfolding validated
validated-ok d v e = ground arith

module _ (hasher : Bytes → Result HydroFault Bytes) where
  put_parts :
      (content : Bytes) (blobs blobs' : List Blob) (digest : String)
      → put hasher content blobs ≡ ok (digest, blobs')
      → (validated digest ≡ ok digest) × (blobs' ≡ store_at digest content blobs)
  unfolding put
  put_parts content blobs blobs' digest e = elim (Result-cases (hasher content)) [
    | inl (x, p) ↦ absurd (ground arith)
    | inr (h, p) ↦ elim (Result-cases (validated (hex h))) [
      | inl (x, q) ↦ absurd (ground arith)
      | inr (v, q) ↦
          let (same, valid) = validated-ok (hex h) v q in
          let here : digest ≡ hex h = ground arith in (rw here valid, ground arith)
    ]
  ]

  get-valid :
      (digest : String) (blobs : List Blob) (b : Blob)
      → validated digest ≡ ok digest
      → fetch_one (at_digest digest) blobs ≡ some b
      → get digest blobs ≡ ok b.content
  unfolding get
  get-valid digest blobs b v f = ground arith

  filed-fetch_one :
      (digest : String) (content : Bytes) (blobs : List Blob)
      → FiledAs digest content blobs
      → exists_where (at_digest digest) blobs ≡ true
      → (b : Blob) × (fetch_one (at_digest digest) blobs ≡ some b) × (b.content ≡ content)
  filed-fetch_one digest content [] f e = absurd (ground arith)
  filed-fetch_one digest content (b ∷ blobs) f e = elim (Bool-cases (str_eq b.digest digest)) [
    | inl here ↦ (b, rw here refl, f.0 ((eq_iff b.digest digest).0 here))
    | inr elsewhere ↦
        let (c, found, same) = filed-fetch_one digest content blobs f.1 (ground arith) in
        (c, rw elsewhere found, same)
  ]

  fetch_one-append_new :
      (digest : String) (content : Bytes) (blobs : List Blob)
      → exists_where (at_digest digest) blobs ≡ false
      → fetch_one (at_digest digest) (blobs ++ (record { digest = digest; content = content }) ∷ [])
        ≡ some (record { digest = digest; content = content })
  fetch_one-append_new digest content [] e = ground (arith, eq_refl digest)
  fetch_one-append_new digest content (b ∷ blobs) e =
      ground (arith, fetch_one-append_new digest content blobs)

  -- What was put is read back, if no other content was filed under its digest before.
  pub get-put :
      (content : Bytes) (blobs blobs' : List Blob) (digest : String)
      → put hasher content blobs ≡ ok (digest, blobs')
      → FiledAs digest content blobs
      → get digest blobs' ≡ ok content
  get-put content blobs blobs' digest e filed =
      let (valid, stored) = put_parts content blobs blobs' digest e in
      elim (Bool-cases (exists_where (at_digest digest) blobs)) [
        | inl old ↦
            let (b, found, same) = filed-fetch_one digest content blobs filed old in
            rw (stored, old) (get-valid digest blobs b valid found ∙ ap ok same)
        | inr new ↦
            rw (stored, new)
              (get-valid digest _ _ valid (fetch_one-append_new digest content blobs new))
      ]

  exists_where-fetch_one :
      (digest : String) (blobs : List Blob)
      → exists_where (at_digest digest) blobs ≡ true
      → (b : Blob) × (fetch_one (at_digest digest) blobs ≡ some b)
  exists_where-fetch_one digest [] e = absurd (ground arith)
  exists_where-fetch_one digest (b ∷ blobs) e = elim (Bool-cases (str_eq b.digest digest)) [
    | inl here ↦ (b, rw here refl)
    | inr elsewhere ↦
        let (c, found) = exists_where-fetch_one digest blobs (ground arith) in
        (c, rw elsewhere found)
  ]

  -- What was put can be read, whatever was filed under its digest before.
  pub get-put_filed :
      (content : Bytes) (blobs blobs' : List Blob) (digest : String)
      → put hasher content blobs ≡ ok (digest, blobs')
      → (c : Bytes) × (get digest blobs' ≡ ok c)
  get-put_filed content blobs blobs' digest e =
      let (valid, stored) = put_parts content blobs blobs' digest e in
      elim (Bool-cases (exists_where (at_digest digest) blobs)) [
        | inl old ↦
            let (b, found) = exists_where-fetch_one digest blobs old in
            rw (stored, old) (b.content, get-valid digest blobs b valid found)
        | inr new ↦
            rw (stored, new)
              (content, get-valid digest _ _ valid (fetch_one-append_new digest content blobs new))
      ]

  fetch_one-append_old :
      (d : String) (x : Blob) (blobs : List Blob) (b : Blob)
      → fetch_one (at_digest d) blobs ≡ some b
      → fetch_one (at_digest d) (blobs ++ x ∷ []) ≡ some b
  fetch_one-append_old d x [] b e = absurd (ground arith)
  fetch_one-append_old d x (c ∷ blobs) b e = ground (arith, fetch_one-append_old d x blobs b)

  pub get_parts :
      (d : String) (blobs : List Blob) (c : Bytes)
      → get d blobs ≡ ok c
      → (validated d ≡ ok d)
        × (b : Blob) × (fetch_one (at_digest d) blobs ≡ some b)
        × (b.content ≡ c)
  unfolding get
  get_parts d blobs c g = elim (Result-cases (validated d)) [
    | inl (x, q) ↦ absurd (ground arith)
    | inr (v, q) ↦
        let (same, valid) = validated-ok d v q in
        elim (Option-cases (fetch_one (at_digest d) blobs)) [
          | inl missing ↦ absurd (ground arith)
          | inr (b, found) ↦ (valid, b, found, ground arith)
        ]
  ]

  -- A later put changes no read.
  pub get-put_keeps :
      (content : Bytes) (blobs blobs' : List Blob) (digest d : String) (c : Bytes)
      → put hasher content blobs ≡ ok (digest, blobs')
      → get d blobs ≡ ok c
      → get d blobs' ≡ ok c
  get-put_keeps content blobs blobs' digest d c e g =
      let (valid, b, found, same) = get_parts d blobs c g in
      let (_, stored) = put_parts content blobs blobs' digest e in
      elim (Bool-cases (exists_where (at_digest digest) blobs)) [
        | inl old ↦ rw (stored, old) g
        | inr new ↦
            rw (stored, new)
              (get-valid d _ b valid (fetch_one-append_old d _ blobs b found) ∙ ap ok same)
      ]
