-- ===== src/Content.antt =====
-- The GET routes of src/tessera/handlers_content.py. A query is what parse_qs made of it: the
-- values of each name, none if the name does not occur.
pub mod Browse
pub mod Blobs
use tessera_server.Common.{ℕ, zero, suc, String, List, [], ◌∷◌, Option, none, some, min}
use tessera_server.Common.Int.{pos, negsuc}
use tessera_server.Bytes.Numbers.{parse_int}

abbrev pub Query : Type 0
Query = String → List String

-- _positive_int
unfoldable pub positive_int : List String → ℕ → ℕ → ℕ
positive_int [] default maximum = default
positive_int (value ∷ _) default maximum = elim (parse_int value) [
  | none ↦ default
  | some (negsuc n) ↦ default
  | some (pos zero) ↦ default
  | some (pos (suc n)) ↦ min (suc n) maximum
]

-- (ctx.query.get(name) or [default])[0]
abbrev pub first_or : List String → String → String
first_or [] default = default
first_or (value ∷ _) default = value
