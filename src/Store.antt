-- ===== src/Store.antt =====
-- src/tessera/store.py: blobs named by the hash of their bytes. The directory tree is the list of
-- the files in it, each with the digest that its path is made of.
pub mod Reads
pub mod Addressed
pub mod Paths
pub mod Map
use tessera_server.Common.{
  ℕ, ◌+◌, String, Bool, ◌||◌, not, Option, none, some, List, [], ◌∷◌, ◌++◌, Result, ok, raise,
  ◌>>=◌, ◌>>◌, raise_if, length, ◌==◌, str_eq, if◌then◌else◌,
}
use tessera_server.Common.Table.{exists_where, delete_where, fetch_one}
use tessera_server.Common.Text
use tessera_server.Bytes.{Bytes}
use tessera_server.Bytes.Codec.{hex}
use tessera_server.Hydro.{HydroFault}

-- InvalidDigest, BlobNotFound, or what the hash function raised.
pub data StoreFault : Type 0 where
  invalid_digest blob_not_found : StoreFault
  hash_fault : HydroFault → StoreFault

pub record Blob : Type 0 where
  pub digest : String
  pub content : Bytes

abbrev pub digest_hex_len : ℕ
digest_hex_len = 64

-- BlobStore._validated
unfoldable pub validated : String → Result StoreFault String
validated digest_hex = do
  raise_if
      (not (Text.length digest_hex == digest_hex_len)
        || not (Text.all Text.is_lower_hex digest_hex))
      invalid_digest
  ok digest_hex

-- A path below the root of the store, by its three components.
pub record BlobPath : Type 0 where
  pub first : String
  pub second : String
  pub name : String

-- BlobStore.path_for
abbrev pub path_for : String → Result StoreFault BlobPath
path_for digest_hex = do
  clean ← validated digest_hex
  ok (record { first = Text.take 2 clean; second = Text.take 2 (Text.drop 2 clean); name = clean })

-- Is this the file at a path with the name? The other components are functions of the name.
abbrev pub at_digest : String → Blob → Bool
at_digest digest b = str_eq b.digest digest

abbrev hashed : Result HydroFault Bytes → Result StoreFault Bytes
hashed (ok h) = ok h
hashed (raise x) = raise (hash_fault x)

-- `if target.exists()`, or the write of the new file
abbrev pub store_at : String → Bytes → List Blob → List Blob
store_at target content blobs =
    if exists_where (at_digest target) blobs
    then blobs
    else blobs ++ (record { digest = target; content = content }) ∷ []

-- BlobStore.put
unfoldable pub put :
    (Bytes → Result HydroFault Bytes) → Bytes → List Blob → Result StoreFault (String × List Blob)
put hasher content blobs = do
  h ← hashed (hasher content)
  target ← path_for (hex h)
  ok (target.name, store_at target.name content blobs)

-- BlobStore.exists
unfoldable pub exists : String → List Blob → Result StoreFault Bool
exists digest_hex blobs = do
  target ← path_for digest_hex
  ok (exists_where (at_digest target.name) blobs)

abbrev or_not_found : Option Blob → Result StoreFault Bytes
or_not_found none = raise blob_not_found
or_not_found (some b) = ok b.content

-- BlobStore.get
unfoldable pub get : String → List Blob → Result StoreFault Bytes
get digest_hex blobs = do
  target ← path_for digest_hex
  or_not_found (fetch_one (at_digest target.name) blobs)

-- BlobStore.delete: whether there was a file, and the files that stay
unfoldable pub delete : String → List Blob → Result StoreFault (Bool × List Blob)
delete digest_hex blobs = do
  target ← path_for digest_hex
  ok (exists_where (at_digest target.name) blobs, delete_where (at_digest target.name) blobs)

-- BlobStore.total_bytes
unfoldable pub total_bytes : List Blob → ℕ
total_bytes [] = 0
total_bytes (b ∷ blobs) = length b.content + total_bytes blobs
