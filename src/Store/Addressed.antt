-- ===== src/Store/Addressed.antt =====
-- The blobs of src/tessera/store.py are named by the hash of their bytes.
use tessera_server.Common.{
  ◌≡◌, ◌∙◌, String, List, Result, ok, arith, All, eq_iff, Bool-cases, Result-cases, inl, inr,
}
use tessera_server.Common.Table.{exists_where}
use tessera_server.Common.Table.Laws.{fetch_one-All, fetch_one-holds}
use tessera_server.Common.Sort.Keyed.{All-append}
use tessera_server.Bytes.{Bytes}
use tessera_server.Bytes.Codec.{hex}
use tessera_server.Hydro.{HydroFault}
use tessera_server.Store.{Blob, validated, at_digest, store_at, put, get}
use tessera_server.Store.Reads.{get_parts}

module _ (hasher : Bytes → Result HydroFault Bytes) where
  -- The digest is the hash of the content.
  abbrev pub HashesTo : Bytes → String → Type 0
  HashesTo content digest = (h : Bytes) × (hasher content ≡ ok h) × (hex h ≡ digest)

  -- Every file is filed under the hash of its content.
  abbrev pub IsAddressed : List Blob → Type 0
  IsAddressed blobs = All (λ b. HashesTo b.content b.digest) blobs

  put_hashed :
      (content : Bytes) (blobs blobs' : List Blob) (digest : String)
      → put hasher content blobs ≡ ok (digest, blobs')
      → HashesTo content digest × (blobs' ≡ store_at digest content blobs)
  unfolding put validated
  put_hashed content blobs blobs' digest e = elim (Result-cases (hasher content)) [
    | inl (x, p) ↦ absurd (ground arith)
    | inr (h, p) ↦ ((h, p, ground arith), ground arith)
  ]

  pub put-IsAddressed :
      (content : Bytes) (blobs blobs' : List Blob) (digest : String)
      → put hasher content blobs ≡ ok (digest, blobs')
      → IsAddressed blobs
      → IsAddressed blobs'
  put-IsAddressed content blobs blobs' digest e h =
      let (hashed, stored) = put_hashed content blobs blobs' digest e in
      elim (Bool-cases (exists_where (at_digest digest) blobs)) [
        | inl old ↦ rw (stored, old) h
        | inr new ↦ rw (stored, new) (All-append _ blobs _ h hashed)
      ]

  -- What is read under a digest hashes to it.
  pub get-IsAddressed :
      (digest : String) (blobs : List Blob) (content : Bytes)
      → IsAddressed blobs
      → get digest blobs ≡ ok content
      → HashesTo content digest
  get-IsAddressed digest blobs content h read =
      let (valid, b, found, same) = get_parts hasher digest blobs content read in
      let (hash, hashed, named) = fetch_one-All (at_digest digest) _ blobs b h found in
      let filed = (eq_iff b.digest digest).0 (fetch_one-holds (at_digest digest) blobs b found) in
      (hash, (rw same at hashed), named ∙ filed)
