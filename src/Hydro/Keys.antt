-- ===== src/Hydro/Keys.antt =====
-- The keys of src/tessera/hydro.py, from keygen to sign_verify.
use tessera_server.Common.{
  ℕ, suc, zero, ◌+◌, ◌≤◌, ◌≡◌, refl, String, true, some, [], ◌∷◌, ok, arith, length, take, drop,
}
use tessera_server.Bytes.{Bytes}
use tessera_server.Bytes.Codec.{encode_ascii}
use tessera_server.Hydro.{
  HydroLib, contextbytes, context_bytes, fixed, keygen, sign_create, sign_verify, sign_bytes,
  sign_publickeybytes, sign_secretkeybytes,
}

length-take : (n : ℕ) (bs : Bytes) → n ≤ length bs → length (take n bs) ≡ n
length-take zero bs h = refl
length-take (suc n) [] h = absurd (omega arith)
length-take (suc n) (b ∷ bs) h = omega (arith, length-take n bs)

length-drop : (n : ℕ) (bs : Bytes) → n ≤ length bs → n + length (drop n bs) ≡ length bs
length-drop zero bs h = omega arith
length-drop (suc n) [] h = absurd (omega arith)
length-drop (suc n) (b ∷ bs) h = omega (arith, length-drop n bs)

keygen_lengths :
    (buffer : Bytes)
    → length buffer ≡ sign_publickeybytes + sign_secretkeybytes
    → (length (keygen buffer).0 ≡ sign_publickeybytes)
      × (length (keygen buffer).1 ≡ sign_secretkeybytes)
unfolding keygen
keygen_lengths buffer h =
    let all = length-take 96 buffer (omega arith) in
    (length-take 32 (take 96 buffer) (omega arith), omega (arith, length-drop 32 (take 96 buffer)))

module _ (lib : HydroLib) where
  open lib use {hydro_sign_create, hydro_sign_verify}

  -- What hydro_sign_create signs with the secret half of a buffer of hydro_sign_keygen, it says so,
  -- fills 64 bytes, and hydro_sign_verify accepts them under the public half.
  abbrev pub Signs : Bytes → Bytes → Bytes → Bytes → Type 0
  Signs public_key secret_key ctx message =
      ((hydro_sign_create message ctx secret_key).0 ≡ 0)
      × (length (hydro_sign_create message ctx secret_key).1 ≡ sign_bytes)
      × (hydro_sign_verify (hydro_sign_create message ctx secret_key).1 message ctx public_key ≡ 0)

  -- With a context of eight ASCII characters and a generated key pair, the wrapper signs every message
  -- without an error and accepts the signature: none of its checks of lengths stands in the way.
  pub sign_verify-sign_create :
      (buffer message ctx : Bytes) (context : String)
      → length buffer ≡ sign_publickeybytes + sign_secretkeybytes
      → encode_ascii context ≡ some ctx
      → length ctx ≡ contextbytes
      → Signs (keygen buffer).0 (keygen buffer).1 ctx message
      → (signature : Bytes) × (sign_create lib message context (keygen buffer).1 ≡ ok signature)
        × (sign_verify lib signature message context (keygen buffer).0 ≡ ok true)
  unfolding sign_create sign_verify context_bytes fixed
  sign_verify-sign_create buffer message ctx context size read eight (signed, long, accepted) =
      let (pk, sk) = keygen_lengths buffer size in
      ((hydro_sign_create message ctx (keygen buffer).1).1, ground arith, ground arith)
