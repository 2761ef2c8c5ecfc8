-- ===== src/Config/Load.antt =====
-- _coerce and load_config of src/tessera/config.py, up to the call of TesseraConfig with the values
-- found. `is_float` tells whether float(text) reads the text.
pub mod Env
pub mod Order
use Prim.Native.Char.{Char, code}
use tessera_server.Common.{
  ℕ, ◌+◌, String, Bool, true, false, ◌&&◌, ◌||◌, not, Option, none, some, List, [], ◌∷◌, leb, ◌==◌,
  str_eq, if◌then◌else◌,
}
use tessera_server.Common.Int.{ℤ}
use tessera_server.Common.Table.{fetch_one, select, exists_where}
use tessera_server.Common.Text
use tessera_server.Common.Text.{is_space, is_lower_hex, strip}
use tessera_server.Bytes.Numbers.{parse_int}

-- The declared type of a field, with _PATH_FIELDS and _TUPLE_FIELDS.
pub data Kind : Type 0 where
  path_kind tuple_kind bool_kind int_kind float_kind str_kind : Kind

-- A field of TesseraConfig, with "TESSERA_" + name.upper().
pub record Field : Type 0 where
  pub name : String
  pub env_name : String
  pub kind : Kind

-- The fields but report_reasons.
abbrev pub known : List Field
known =
    (record { name = "listen_host"; env_name = "TESSERA_LISTEN_HOST"; kind = str_kind })
    ∷ (record { name = "listen_port"; env_name = "TESSERA_LISTEN_PORT"; kind = int_kind })
    ∷ (record { name = "proxy_protocol"; env_name = "TESSERA_PROXY_PROTOCOL"; kind = bool_kind })
    ∷ (record {
      name = "trusted_proxy_cidr";
      env_name = "TESSERA_TRUSTED_PROXY_CIDR";
      kind = str_kind;
    })
    ∷ (record { name = "state_dir"; env_name = "TESSERA_STATE_DIR"; kind = path_kind })
    ∷ (record { name = "sign_context"; env_name = "TESSERA_SIGN_CONTEXT"; kind = str_kind })
    ∷ (record {
      name = "replay_window_secs";
      env_name = "TESSERA_REPLAY_WINDOW_SECS";
      kind = int_kind;
    })
    ∷ (record { name = "hydro_library"; env_name = "TESSERA_HYDRO_LIBRARY"; kind = path_kind })
    ∷ (record { name = "max_model_bytes"; env_name = "TESSERA_MAX_MODEL_BYTES"; kind = int_kind })
    ∷ (record { name = "max_thumb_bytes"; env_name = "TESSERA_MAX_THUMB_BYTES"; kind = int_kind })
    ∷ (record {
      name = "max_request_bytes";
      env_name = "TESSERA_MAX_REQUEST_BYTES";
      kind = int_kind;
    })
    ∷ (record {
      name = "max_total_disk_bytes";
      env_name = "TESSERA_MAX_TOTAL_DISK_BYTES";
      kind = int_kind;
    })
    ∷ (record {
      name = "uploads_per_key_per_day";
      env_name = "TESSERA_UPLOADS_PER_KEY_PER_DAY";
      kind = int_kind;
    })
    ∷ (record {
      name = "global_uploads_per_hour";
      env_name = "TESSERA_GLOBAL_UPLOADS_PER_HOUR";
      kind = int_kind;
    })
    ∷ (record { name = "ip_burst"; env_name = "TESSERA_IP_BURST"; kind = int_kind })
    ∷ (record { name = "ip_refill_secs"; env_name = "TESSERA_IP_REFILL_SECS"; kind = float_kind })
    ∷ (record { name = "ip_slots"; env_name = "TESSERA_IP_SLOTS"; kind = int_kind })
    ∷ (record { name = "global_burst"; env_name = "TESSERA_GLOBAL_BURST"; kind = int_kind })
    ∷ (record {
      name = "global_refill_secs";
      env_name = "TESSERA_GLOBAL_REFILL_SECS";
      kind = float_kind;
    })
    ∷ (record { name = "browse_page_size"; env_name = "TESSERA_BROWSE_PAGE_SIZE"; kind = int_kind })
    ∷ (record {
      name = "browse_max_page_size";
      env_name = "TESSERA_BROWSE_MAX_PAGE_SIZE";
      kind = int_kind;
    })
    ∷ (record {
      name = "report_autohide_threshold";
      env_name = "TESSERA_REPORT_AUTOHIDE_THRESHOLD";
      kind = int_kind;
    })
    ∷ (record { name = "admin_keys"; env_name = "TESSERA_ADMIN_KEYS"; kind = tuple_kind })
    ∷ []

-- A value of the TOML file or the environment: a text, a bool, an array or a table with str() of
-- what iterating gives and str() of itself, or another value with its str().
pub data Raw : Type 0 where
  raw_str : String → Raw
  raw_bool : Bool → Raw
  raw_items : List String → String → Raw
  raw_other : String → Raw

-- What _coerce returns. A path and a float are kept as the text that they are made of.
pub data Value : Type 0 where
  path_value : String → Value
  keys_value : List String → Value
  bool_value : Bool → Value
  int_value : ℤ → Value
  float_value : String → Value
  str_value : String → Value

-- str(raw)
abbrev text_of : Raw → String
text_of (raw_str s) = s
text_of (raw_bool true) = "True"
text_of (raw_bool false) = "False"
text_of (raw_items items s) = s
text_of (raw_other s) = s

onto_word : Char → List String → List String
onto_word c [] = String.◌∷◌ c "" ∷ []
onto_word c (w ∷ ws) = String.◌∷◌ c w ∷ ws

pieces : String → List String
unfolding onto_word
pieces String.[] = "" ∷ []
pieces (String.◌∷◌ c s) =
    let rest = pieces s in
    if is_space (code c) || code c == b',' then "" ∷ rest else onto_word c rest

-- [part for part in raw.replace(",", " ").split() if part]
unfoldable pub split_words : String → List String
unfolding pieces is_space
split_words s = select (λ part. not (str_eq part "")) (pieces s)

-- 64 characters, all in "0123456789abcdef"
abbrev pub is_key : String → Bool
is_key item = (Text.length item == 64) && Text.all is_lower_hex item

abbrev pub all_keys : List String → Bool
all_keys [] = true
all_keys (item ∷ items) = is_key item && all_keys items

abbrev checked_keys : List String → Option Value
checked_keys items = if all_keys items then some (keys_value items) else none

-- text.lower() == word, for a word of ASCII letters
same_word : String → String → Bool
same_word String.[] String.[] = true
same_word String.[] (String.◌∷◌ d w) = false
same_word (String.◌∷◌ c s) String.[] = false
same_word (String.◌∷◌ c s) (String.◌∷◌ d w) =
    (code c == code d || (leb 65 (code c) && leb (code c) 90 && code c + 32 == code d))
    && same_word s w

-- str(raw).strip().lower() in {"1", "true", "yes", "on"}
unfoldable pub truthy : String → Bool
unfolding same_word strip
truthy s =
    let t = strip s in
    same_word t "1" || same_word t "true" || same_word t "yes" || same_word t "on"

-- The dict `values`.
abbrev pub Values : Type 0
Values = String → Option Value

abbrev pub set_value : String → Value → Values → Values
set_value key v values name = if str_eq name key then some v else values name

abbrev pub find_field : String → List Field → Option Field
find_field key = fetch_one (λ fd. str_eq fd.name key)

-- `key in known`, with the declared type
unfoldable pub known_field : String → Option Field
known_field key = find_field key known

module _ (is_float : String → Bool) where
  -- _coerce for a field of the kind; none where it raises
  unfoldable pub coerce : Kind → Raw → Option Value
  unfolding split_words truthy parse_int
  coerce path_kind raw = some (path_value (text_of raw))
  coerce tuple_kind (raw_str s) = checked_keys (split_words s)
  coerce tuple_kind (raw_items items s) = checked_keys items
  coerce tuple_kind (raw_bool b) = none
  coerce tuple_kind (raw_other s) = none
  coerce bool_kind (raw_bool b) = some (bool_value b)
  coerce bool_kind raw = some (bool_value (truthy (text_of raw)))
  coerce int_kind raw = elim (parse_int (text_of raw)) [ none ↦ none | some n ↦ some (int_value n) ]
  coerce float_kind raw = if is_float (text_of raw) then some (float_value (text_of raw)) else none
  coerce str_kind raw = some (str_value (text_of raw))

  -- The loop over the table of the file; none where it raises
  unfoldable pub load_file : List (String × Raw) → Values → Option Values
  unfolding known_field
  load_file [] values = some values
  load_file ((key, raw) ∷ rest) values = elim (known_field key) [
    | none ↦ none
    | some fd ↦ elim (coerce fd.kind raw) [
      | none ↦ none
      | some v ↦ load_file rest (set_value key v values)
    ]
  ]

  -- The loop over the known keys
  unfoldable pub load_env : List Field → (String → Option String) → Values → Option Values
  load_env [] env values = some values
  load_env (fd ∷ fields) env values = elim (env fd.env_name) [
    | none ↦ load_env fields env values
    | some text ↦ elim (coerce fd.kind (raw_str text)) [
      | none ↦ none
      | some v ↦ load_env fields env (set_value fd.name v values)
    ]
  ]

  -- load_config; without a file its table is empty
  unfoldable pub load_values : List (String × Raw) → (String → Option String) → Option Values
  unfolding load_file load_env
  load_values table env = elim (load_file table (λ name. none)) [
    | none ↦ none
    | some values ↦ load_env known env values
  ]
