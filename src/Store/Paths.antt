-- ===== src/Store/Paths.antt =====
-- The only place of src/tessera/store.py where a text becomes a path.
use tessera_server.Common.{
  ℕ, zero, suc, ◌+◌, ◌<◌, ◌≤◌, ◌≡◌, refl, String, Bool, true, List, Result, ok, arith, All, length,
  Result-cases, inl, inr,
}
use tessera_server.Common.Text
use tessera_server.Common.Text.{take, drop, all, is_lower_hex}
use tessera_server.Bytes.{Bytes}
use tessera_server.Bytes.Codec.{hex}
use tessera_server.Bytes.Codec.Hex.{hex-lower}
use tessera_server.Hydro.{HydroFault}
use tessera_server.Store.{Blob, BlobPath, validated, path_for, store_at, put}

module _ (p : ℕ → Bool) where
  all-take : (n : ℕ) (s : String) → all p s ≡ true → all p (take n s) ≡ true
  all-take zero s h = refl
  all-take (suc n) String.[] h = refl
  all-take (suc n) (String.◌∷◌ c s) h = ground (arith, all-take n s)

  all-drop : (n : ℕ) (s : String) → all p s ≡ true → all p (drop n s) ≡ true
  all-drop zero s h = h
  all-drop (suc n) String.[] h = h
  all-drop (suc n) (String.◌∷◌ c s) h = all-drop n s (ground arith)

length-take : (n : ℕ) (s : String) → n ≤ Text.length s → Text.length (take n s) ≡ n
length-take zero s h = refl
length-take (suc n) String.[] h = absurd (omega arith)
length-take (suc n) (String.◌∷◌ c s) h = omega (arith, length-take n s)

length-drop : (n : ℕ) (s : String) → Text.length s ≤ n + Text.length (drop n s)
length-drop zero s = omega arith
length-drop (suc n) String.[] = omega arith
length-drop (suc n) (String.◌∷◌ c s) = omega (arith, length-drop n s)

-- A component of n lower-case hexadecimal digits: neither a separator nor a dot is in it.
abbrev pub IsHexName : ℕ → String → Type 0
IsHexName n s = (Text.length s ≡ n) × (all is_lower_hex s ≡ true)

validated-IsHexName : (d v : String) → validated d ≡ ok v → (v ≡ d) × IsHexName 64 d
unfolding validated
validated-IsHexName d v e = ground arith

-- A path that a digest has lies two directories below the root, and its three components are 2, 2
-- and 64 lower-case hexadecimal digits, the last one the digest itself: so no text, whatever it is,
-- leads out of the root, and two digests have two paths.
pub path_for_safe :
    (digest_hex : String) (path : BlobPath)
    → path_for digest_hex ≡ ok path
    → IsHexName 2 path.first
      × IsHexName 2 path.second
      × IsHexName 64 path.name
      × (path.name ≡ digest_hex)
path_for_safe digest_hex path e = elim (Result-cases (validated digest_hex)) [
  | inl (x, failed) ↦ absurd (ground arith)
  | inr (v, valid) ↦
      let (same, hex_name) = validated-IsHexName digest_hex v valid in
      let shape : path ≡ record { first = take 2 v; second = take 2 (drop 2 v); name = v } =
        ground arith in
      rw (shape, same)
        (
          (length-take 2 digest_hex (omega arith), all-take is_lower_hex 2 digest_hex hex_name.1),
          (
            length-take 2 (drop 2 digest_hex) (omega (arith, length-drop 2 digest_hex)),
            all-take is_lower_hex 2 (drop 2 digest_hex)
                (all-drop is_lower_hex 2 digest_hex hex_name.1),
          ),
          hex_name,
          refl,
        )
]

validated-hex :
    (bs : Bytes) → All (λ b. b < 256) bs → length bs ≡ 32 → validated (hex bs) ≡ ok (hex bs)
unfolding validated
validated-hex bs h size =
    let (long, lower) = hex-lower bs h in
    let exact : Text.length (hex bs) ≡ 64 = omega arith in ground arith

-- With a hash of 32 bytes, `put` raises nothing: it files the content under the hash in
-- hexadecimal digits.
pub put_total :
    (hasher : Bytes → Result HydroFault Bytes) (content h : Bytes) (blobs : List Blob)
    → hasher content ≡ ok h
    → length h ≡ 32
    → All (λ b. b < 256) h
    → put hasher content blobs ≡ ok (hex h, store_at (hex h) content blobs)
unfolding put
put_total hasher content h blobs e size small = rw (e, put) (rw (validated-hex h small size) refl)
