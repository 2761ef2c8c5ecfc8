-- ===== src/Json.antt =====
-- JSON values as the handlers see them, after json.loads and before json.dumps.
use tessera_server.Common.{ℕ, String, Bool, true, false, Option, none, some, str_eq, if◌then◌else◌}
use tessera_server.Common.Int.{ℤ, pos}

-- A float is kept as the integer that it equals, if it equals one: the code only compares it.
mutual
  pub data Json : Type 0 where
    null : Json
    boolean : Bool → Json
    int : ℤ → Json
    float : Option ℤ → Json
    str : String → Json
    arr : Items → Json
    obj : Fields → Json

  pub data Items : Type 0 where
    nil : Items
    cons : Json → Items → Items

  pub data Fields : Type 0 where
    end : Fields
    field : String → Json → Fields → Fields

-- What `json.loads(body.decode("utf-8"))` does: a value, UnicodeDecodeError or JSONDecodeError, or
-- an exception of another class (RecursionError, or the ValueError of an overlong integer).
pub data Loaded : Type 0 where
  value : Json → Loaded
  decode_error : Loaded
  other_error : Loaded

-- dict.get(name)
unfoldable pub get : String → Fields → Option Json
get name end = none
get name (field key v rest) = let later = get name rest in if str_eq key name then some v else later

-- name in dict
abbrev pub has : String → Fields → Bool
has name fields = elim (get name fields) [ none ↦ false | some _ ↦ true ]

abbrev pub number : ℕ → Json
number n = int (pos n)
