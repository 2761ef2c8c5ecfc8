-- ===== src/Tests/Configs.antt =====
-- The theorems on the configuration, at a file of two entries and one variable.
use tessera_server.Common.{
  ◌≡◌, ◌⊎◌, refl, String, Bool, true, Option, none, some, List, [], ◌∷◌, str_eq, if◌then◌else◌,
}
use tessera_server.Common.Int.{pos}
use tessera_server.Bytes.Numbers.{parse_int, read_digits}
use tessera_server.Config.Load.{
  Field, int_kind, known_field, Raw, raw_str, raw_items, raw_other, keys_value, int_value, Values,
  set_value, coerce, load_values,
}
use tessera_server.Config.Load.Order.{last_entry, from_file, load_values_order}
use tessera_server.Tests.Fixtures.{some_key}

abbrev some_table : List (String × Raw)
some_table = ("ip_burst", raw_other "30") ∷ ("admin_keys", raw_items (some_key ∷ []) "") ∷ []

abbrev some_env : String → Option String
some_env name = if str_eq name "TESSERA_IP_BURST" then some "40" else none

abbrev any_float : String → Bool
any_float text = true

abbrev some_values : Values
some_values = set_value "ip_burst" (int_value (pos 40)) (
    set_value "admin_keys" (keys_value (some_key ∷ []))
      (set_value "ip_burst" (int_value (pos 30)) (λ name. none)))

some_values-loaded : load_values any_float some_table some_env ≡ some some_values
unfolding load_values coerce parse_int read_digits
some_values-loaded = refl

abbrev burst_field : Field
burst_field = record { name = "ip_burst"; env_name = "TESSERA_IP_BURST"; kind = int_kind }

burst_field-known : known_field "ip_burst" ≡ some burst_field
unfolding known_field
burst_field-known = refl

load_values_order_example :
    ((text : String) × (some_env "TESSERA_IP_BURST" ≡ some text)
      × (some_values "ip_burst" ≡ coerce any_float int_kind (raw_str text)))
    ⊎ ((some_env "TESSERA_IP_BURST" ≡ none)
        × (some_values "ip_burst"
            ≡ from_file any_float burst_field (last_entry "ip_burst" some_table) none))
load_values_order_example =
    load_values_order any_float some_table some_env some_values burst_field burst_field-known
      some_values-loaded
