-- ===== src/Hydro.antt =====
-- src/tessera/hydro.py: the guards in front of libhydrogen, which is a parameter.
pub mod Keys
use tessera_server.Common.{
  ℕ, String, Bool, not, Option, none, some, Result, ok, raise, ◌>>=◌, ◌>>◌, raise_if, length, take,
  drop, ◌+◌, ◌==◌,
}
use tessera_server.Bytes.{Bytes}
use tessera_server.Bytes.Codec.{encode_ascii}

-- What the daemon calls of the library: its return codes, and the buffer that it filled.
pub record HydroLib : Type 0 where
  pub hydro_sign_create : Bytes → Bytes → Bytes → ℕ × Bytes
  pub hydro_sign_verify : Bytes → Bytes → Bytes → Bytes → ℕ
  pub hydro_hash_hash : Bytes → Bytes → ℕ × Bytes

-- HydroError, or the UnicodeEncodeError of a context that is not ASCII.
pub data HydroFault : Type 0 where
  hydro_error unicode_error : HydroFault

abbrev pub sign_bytes : ℕ
sign_bytes = 64

abbrev pub sign_publickeybytes : ℕ
sign_publickeybytes = 32

abbrev pub sign_secretkeybytes : ℕ
sign_secretkeybytes = 64

abbrev pub contextbytes : ℕ
contextbytes = 8

-- Hydro.__init__: CDLL raises OSError or gives the library, whose hydro_init returns a code.
unfoldable pub load : Option (ℕ × HydroLib) → Result HydroFault HydroLib
load none = raise hydro_error
load (some (code, lib)) = do raise_if (not (code == 0)) hydro_error; ok lib

-- Hydro.keygen, from the buffer that hydro_sign_keygen has filled: the public and the secret key
unfoldable pub keygen : Bytes → Bytes × Bytes
keygen buffer =
    let raw = take (sign_publickeybytes + sign_secretkeybytes) buffer in
    (take sign_publickeybytes raw, drop sign_publickeybytes raw)

abbrev or_unicode_error : Option Bytes → Result HydroFault Bytes
or_unicode_error none = raise unicode_error
or_unicode_error (some raw) = ok raw

-- Hydro._context
unfoldable pub context_bytes : String → Result HydroFault Bytes
unfolding encode_ascii
context_bytes context = do
  raw ← or_unicode_error (encode_ascii context)
  raise_if (not (length raw == contextbytes)) hydro_error
  ok raw

-- Hydro._fixed
unfoldable pub fixed : Bytes → ℕ → Result HydroFault Bytes
fixed value size = do raise_if (not (length value == size)) hydro_error; ok value

module _ (lib : HydroLib) where
  open lib use {hydro_sign_create, hydro_sign_verify, hydro_hash_hash}

  unfoldable pub sign_create : Bytes → String → Bytes → Result HydroFault Bytes
  unfolding context_bytes fixed
  sign_create message context secret_key = do
    ctx ← context_bytes context
    sk ← fixed secret_key sign_secretkeybytes
    let out = hydro_sign_create message ctx sk
    raise_if (not (out.0 == 0)) hydro_error
    ok out.1

  unfoldable pub sign_verify : Bytes → Bytes → String → Bytes → Result HydroFault Bool
  unfolding context_bytes fixed
  sign_verify signature message context public_key = do
    ctx ← context_bytes context
    sig ← fixed signature sign_bytes
    pk ← fixed public_key sign_publickeybytes
    ok (hydro_sign_verify sig message ctx pk == 0)

  unfoldable pub hash32 : Bytes → String → Result HydroFault Bytes
  unfolding context_bytes
  hash32 message context = do
    ctx ← context_bytes context
    let out = hydro_hash_hash message ctx
    raise_if (not (out.0 == 0)) hydro_error
    ok out.1
