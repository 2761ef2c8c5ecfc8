-- ===== src/Bytes.antt =====
-- Byte strings, and the conversions of Python's `bytes`, `str` and `int` that the server calls.
pub mod Codec
pub mod Numbers
use tessera_server.Common.{ℕ, suc, ◌+◌, ◌*◌, ◌/◌, ◌<◌, List, ltb, All}

abbrev pub Bytes : Type 0
Bytes = List ℕ

-- Every element is an octet.
abbrev pub AreBytes : Bytes → Type 0
AreBytes = All (λ b. b < 256)
