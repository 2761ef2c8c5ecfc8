-- ===== src/Store/Map.antt =====
-- The blob store of src/tessera/store.py as a map from digests to contents.
use mathlib.Core.Path.{fun_ext}
use tessera_server.Common.{
  ◌≡◌, refl, sym, ap, ap₂, ◌∙◌, String, Bool, true, false, Option, none, some, List, [], ◌∷◌, ◌++◌,
  Result, ok, raise, ◌>>=◌, arith, str_eq, eq_iff, Bool-cases, Result-cases, Option-cases, inl, inr,
  if◌then◌else◌,
}
use tessera_server.Common.Table.{exists_where, fetch_one, delete_where}
use tessera_server.Bytes.{Bytes}
use tessera_server.Bytes.Codec.{hex}
use tessera_server.Hydro.{HydroFault}
use tessera_server.Store
use tessera_server.Store.{Blob, StoreFault, blob_not_found, validated, hashed, at_digest, store_at}

-- A call of the interface, and what it answers.
pub data Call : Type 0 where
  put : Bytes → Call
  get exists delete : String → Call

pub data Answer : Type 0 where
  digest : Result StoreFault String → Answer
  content : Result StoreFault Bytes → Answer
  flag : Result StoreFault Bool → Answer

-- What is stored under each digest.
abbrev pub Disk : Type 0
Disk = String → Option Bytes

abbrev is_some : Option Bytes → Bool
is_some none = false
is_some (some c) = true

abbrev filed_or_fault : Option Bytes → Result StoreFault Bytes
filed_or_fault none = raise blob_not_found
filed_or_fault (some c) = ok c

-- The first content that is put under a digest stays.
abbrev first_of : Option Bytes → Bytes → Option Bytes
first_of none c = some c
first_of (some old) c = some old

abbrev pub write : String → Option Bytes → Disk → Disk
write d c disk e = if str_eq d e then c else disk e

-- The contents of the files by digest.
abbrev pub contents : List Blob → Disk
contents blobs d = elim (fetch_one (at_digest d) blobs) [ none ↦ none | some b ↦ some b.content ]

exists_where-contents :
    (d : String) (blobs : List Blob) → exists_where (at_digest d) blobs ≡ is_some (contents blobs d)
exists_where-contents d [] = refl
exists_where-contents d (b ∷ blobs) = ground (arith, exists_where-contents d blobs)

first_of_kept : (old : Option Bytes) (c : Bytes) → is_some old ≡ true → first_of old c ≡ old
first_of_kept none c h = ground arith
first_of_kept (some x) c h = refl

first_of_new : (old : Option Bytes) (c : Bytes) → is_some old ≡ false → first_of old c ≡ some c
first_of_new none c h = refl
first_of_new (some x) c h = ground arith

contents-append :
    (d : String) (c : Bytes) (blobs : List Blob) (e : String)
    → exists_where (at_digest d) blobs ≡ false
    → contents (blobs ++ (record { digest = d; content = c }) ∷ []) e
      ≡ write d (some c) (contents blobs) e
contents-append d c [] e h = ground arith
contents-append d c (b ∷ blobs) e h =
    ground (arith, eq_iff b.digest d, eq_iff b.digest e, eq_iff d e, contents-append d c blobs e)

write_same : (d : String) (disk : Disk) (e : String) → write d (disk d) disk e ≡ disk e
write_same d disk e = elim (Bool-cases (str_eq d e)) [
  | inl same ↦ rw same (ap disk ((eq_iff d e).0 same))
  | inr other ↦ rw other refl
]

contents-store_at :
    (d : String) (c : Bytes) (blobs : List Blob) (e : String)
    → contents (store_at d c blobs) e ≡ write d (first_of (contents blobs d) c) (contents blobs) e
contents-store_at d c blobs e = elim (Bool-cases (exists_where (at_digest d) blobs)) [
  | inl old ↦
      rw (old, first_of_kept (contents blobs d) c (sym (exists_where-contents d blobs) ∙ old))
        (sym (write_same d (contents blobs) e))
  | inr new ↦
      rw (new, first_of_new (contents blobs d) c (sym (exists_where-contents d blobs) ∙ new))
        (contents-append d c blobs e new)
]

contents-delete :
    (d : String) (blobs : List Blob) (e : String)
    → contents (delete_where (at_digest d) blobs) e ≡ write d none (contents blobs) e
contents-delete d [] e = ground arith
contents-delete d (b ∷ blobs) e =
    ground (arith, eq_iff b.digest d, eq_iff b.digest e, eq_iff d e, contents-delete d blobs e)

module _ (hasher : Bytes → Result HydroFault Bytes) where
  call : Call → List Blob → Answer × List Blob
  call (put c) blobs = elim (Store.put hasher c blobs) [
    | raise x ↦ (digest (raise x), blobs)
    | ok (d, blobs') ↦ (digest (ok d), blobs')
  ]
  call (get d) blobs = (content (Store.get d blobs), blobs)
  call (exists d) blobs = (flag (Store.exists d blobs), blobs)
  call (delete d) blobs = elim (Store.delete d blobs) [
    | raise x ↦ (flag (raise x), blobs)
    | ok (b, blobs') ↦ (flag (ok b), blobs')
  ]

  -- What the interface promises of a call.
  promised : Call → Disk → Answer × Disk
  promised (put c) disk = elim (do h ← hashed (hasher c); validated (hex h)) [
    | raise x ↦ (digest (raise x), disk)
    | ok d ↦ (digest (ok d), write d (first_of (disk d) c) disk)
  ]
  promised (get d) disk = (content (do e ← validated d; filed_or_fault (disk e)), disk)
  promised (exists d) disk = (flag (do e ← validated d; ok (is_some (disk e))), disk)
  promised (delete d) disk = elim (validated d) [
    | raise x ↦ (flag (raise x), disk)
    | ok e ↦ (flag (ok (is_some (disk e))), write e none disk)
  ]

  pub run : List Call → List Blob → List Answer × List Blob
  unfolding call
  run [] blobs = ([], blobs)
  run (c ∷ calls) blobs =
      let (answer, blobs') = call c blobs in
      let (answers, last) = run calls blobs' in (answer ∷ answers, last)

  pub replay : List Call → Disk → List Answer × Disk
  unfolding promised
  replay [] disk = ([], disk)
  replay (c ∷ calls) disk =
      let (answer, disk') = promised c disk in
      let (answers, last) = replay calls disk' in (answer ∷ answers, last)

  call_refines :
      (c : Call) (blobs : List Blob)
      → ((call c blobs).0 ≡ (promised c (contents blobs)).0)
        × (contents (call c blobs).1 ≡ (promised c (contents blobs)).1)
  unfolding call promised Store.put Store.get Store.exists Store.delete
  call_refines (put c) blobs = elim (Result-cases (hasher c)) [
    | inl (x, p) ↦ (ground arith, ground arith)
    | inr (h, p) ↦ elim (Result-cases (validated (hex h))) [
      | inl (x, q) ↦ (ground arith, ground arith)
      | inr (d, q) ↦
          rw (p, q, call, promised, Store.put) (refl, fun_ext (contents-store_at d c blobs))
    ]
  ]
  call_refines (get d) blobs = elim (Result-cases (validated d)) [
    | inl (x, q) ↦ (ground arith, refl)
    | inr (v, q) ↦ elim (Option-cases (fetch_one (at_digest v) blobs)) [
      | inl missing ↦ (ground arith, refl)
      | inr (b, found) ↦ (ground arith, refl)
    ]
  ]
  call_refines (exists d) blobs = elim (Result-cases (validated d)) [
    | inl (x, q) ↦ (ground arith, refl)
    | inr (v, q) ↦ (ground (arith, exists_where-contents v blobs), refl)
  ]
  call_refines (delete d) blobs = elim (Result-cases (validated d)) [
    | inl (x, q) ↦ (ground arith, ground arith)
    | inr (v, q) ↦
        rw (q, call, promised, Store.delete)
          (ap (λ b. flag (ok b)) (exists_where-contents v blobs), fun_ext (contents-delete v blobs))
  ]

  -- Whatever calls are made of the blob store, in any order, they are answered as by a map from
  -- digests to contents in which the first content of a digest stays until the digest is deleted,
  -- errors included, and afterwards the files are those of that map.
  pub run_refines :
      (calls : List Call) (blobs : List Blob)
      → ((run calls blobs).0 ≡ (replay calls (contents blobs)).0)
        × (contents (run calls blobs).1 ≡ (replay calls (contents blobs)).1)
  unfolding run replay
  run_refines [] blobs = (refl, refl)
  run_refines (c ∷ calls) blobs =
      let (same, left) = call_refines c blobs in
      let (answers, last) = run_refines calls (call c blobs).1 in
      rw (← left) (ap₂ ◌∷◌ same answers, last)
