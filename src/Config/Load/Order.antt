-- ===== src/Config/Load/Order.antt =====
-- Which source of the configuration wins, in src/tessera/config.py.
use tessera_server.Common.{
  ◌≡◌, ◌⊎◌, inl, inr, refl, sym, ap, subst, ◌∙◌, String, Bool, true, Option, none, some, List, [],
  ◌∷◌, arith, str_eq, eq_iff, Bool-cases, Option-cases, if◌then◌else◌,
}
use tessera_server.Config.Load.{
  Kind, tuple_kind, Field, known, known_field, Raw, raw_str, raw_bool, raw_items, raw_other, Value,
  keys_value, Values, set_value, all_keys, split_words, checked_keys, coerce, load_file, load_env,
  load_values,
}
use tessera_server.Config.Load.Env.{
  same_value, set_value-other, set_value-same, not_some, some_injective, load_env-FromEnv,
}

checked_keys_lem :
    (items : List String) (v : Value)
    → checked_keys items ≡ some v
    → (items' : List String) × (v ≡ keys_value items') × (all_keys items' ≡ true)
checked_keys_lem items v e = (items, ground arith, ground arith)

-- The last entry of the table for the key.
abbrev pub last_entry : String → List (String × Raw) → Option Raw
last_entry key [] = none
last_entry key ((name, raw) ∷ rest) = elim (last_entry key rest) [
  | some later ↦ some later
  | none ↦ if str_eq name key then some raw else none
]

module _ (is_float : String → Bool) where
  abbrev pub from_file : Field → Option Raw → Option Value → Option Value
  from_file fd none before = before
  from_file fd (some raw) before = coerce is_float fd.kind raw

  load_file_unknown :
      (key : String) (raw : Raw) (rest : List (String × Raw)) (values : Values)
      → known_field key ≡ none
      → load_file is_float ((key, raw) ∷ rest) values ≡ none
  unfolding load_file
  load_file_unknown key raw rest values unknown = rw (unknown, load_file) refl

  load_file_bad :
      (key : String) (raw : Raw) (rest : List (String × Raw)) (values : Values) (fd : Field)
      → known_field key ≡ some fd
      → coerce is_float fd.kind raw ≡ none
      → load_file is_float ((key, raw) ∷ rest) values ≡ none
  unfolding load_file
  load_file_bad key raw rest values fd found bad = rw (found, load_file) (rw bad refl)

  load_file_good :
      (key : String) (raw : Raw) (rest : List (String × Raw)) (values : Values) (fd : Field)
      (v : Value)
      → known_field key ≡ some fd
      → coerce is_float fd.kind raw ≡ some v
      → load_file is_float ((key, raw) ∷ rest) values
        ≡ load_file is_float rest (set_value key v values)
  unfolding load_file
  load_file_good key raw rest values fd v found good = rw (found, load_file) (rw good refl)

  load_file_cases :
      (key : String) (raw : Raw) (rest : List (String × Raw)) (values values' : Values)
      → load_file is_float ((key, raw) ∷ rest) values ≡ some values'
      → (fd : Field) × (v : Value) × (known_field key ≡ some fd)
        × (coerce is_float fd.kind raw ≡ some v)
        × (load_file is_float rest (set_value key v values) ≡ some values')
  load_file_cases key raw rest values values' e = elim (Option-cases (known_field key)) [
    | inl unknown ↦
        absurd (not_some values' (sym (load_file_unknown key raw rest values unknown) ∙ e))
    | inr (fd, found) ↦ elim (Option-cases (coerce is_float fd.kind raw)) [
      | inl bad ↦
          absurd (not_some values' (sym (load_file_bad key raw rest values fd found bad) ∙ e))
      | inr (v, good) ↦
          (fd, v, found, good, sym (load_file_good key raw rest values fd v found good) ∙ e)
    ]
  ]

  -- Behind the file, a field has the value of the last entry for it, or the one that it had.
  load_file-from_file :
      (table : List (String × Raw)) (values values' : Values) (key : String) (fd : Field)
      → known_field key ≡ some fd
      → load_file is_float table values ≡ some values'
      → values' key ≡ from_file fd (last_entry key table) (values key)
  unfolding load_file
  load_file-from_file [] values values' key fd found e = same_value key values values' e
  load_file-from_file ((name, raw) ∷ rest) values values' key fd found e =
      let (fd', v, found', good, next) = load_file_cases name raw rest values values' e in
      let later = load_file-from_file rest (set_value name v values) values' key fd found next in
      elim (Option-cases (last_entry key rest)) [
        | inr (raw', h) ↦
            rw h (later ∙ ap (λ (o : Option Raw). from_file fd o (set_value name v values key)) h)
        | inl h ↦ elim (Bool-cases (str_eq name key)) [
          | inl same ↦
              let is_key : name ≡ key = ground (arith, eq_iff name key) in
              let it = some_injective fd' fd (sym found' ∙ (ap known_field is_key ∙ found)) in
              rw (h, same)
                (later
                  ∙ (ap (λ (o : Option Raw). from_file fd o (set_value name v values key)) h
                      ∙ (set_value-same key name v values is_key
                          ∙ sym (
                              subst (λ (x : Field). coerce is_float x.kind raw ≡ some v) it good))))
          | inr apart ↦
              rw (h, apart)
                (later
                  ∙ (ap (λ (o : Option Raw). from_file fd o (set_value name v values key)) h
                      ∙ set_value-other key name v values apart))
        ]
      ]

  load_values_bad :
      (table : List (String × Raw)) (env : String → Option String)
      → load_file is_float table (λ name. none) ≡ none
      → load_values is_float table env ≡ none
  unfolding load_values
  load_values_bad table env bad = rw (bad, load_values) refl

  load_values_good :
      (table : List (String × Raw)) (env : String → Option String) (filed : Values)
      → load_file is_float table (λ name. none) ≡ some filed
      → load_values is_float table env ≡ load_env is_float known env filed
  unfolding load_values
  load_values_good table env filed good = rw (good, load_values) refl

  load_values_cases :
      (table : List (String × Raw)) (env : String → Option String) (values : Values)
      → load_values is_float table env ≡ some values
      → (filed : Values) × (load_file is_float table (λ name. none) ≡ some filed)
        × (load_env is_float known env filed ≡ some values)
  load_values_cases table env values e =
      elim (Option-cases (load_file is_float table (λ name. none))) [
        | inl bad ↦ absurd (not_some values (sym (load_values_bad table env bad) ∙ e))
        | inr (filed, good) ↦ (filed, good, sym (load_values_good table env filed good) ∙ e)
      ]

  -- If the configuration loads, a field has the value of its environment variable if that is set,
  -- else that of the last entry for it in the file, else none of its own, which is the default.
  pub load_values_order :
      (table : List (String × Raw)) (env : String → Option String) (values : Values) (fd : Field)
      → known_field fd.name ≡ some fd
      → load_values is_float table env ≡ some values
      → ((text : String) × (env fd.env_name ≡ some text)
          × (values fd.name ≡ coerce is_float fd.kind (raw_str text)))
        ⊎ ((env fd.env_name ≡ none)
            × (values fd.name ≡ from_file fd (last_entry fd.name table) none))
  unfolding known_field
  load_values_order table env values fd found e =
      let (filed, good, rest) = load_values_cases table env values e in
      elim (load_env-FromEnv is_float known env filed values fd refl rest found) [
        | inl (unset, same) ↦
            inr (unset, same ∙ load_file-from_file table (λ name. none) filed fd.name fd found good)
        | inr set ↦ inl set
      ]

  -- What is read as a tuple of keys is one.
  coerce-keys :
      (raw : Raw) (v : Value)
      → coerce is_float tuple_kind raw ≡ some v
      → (items : List String) × (v ≡ keys_value items) × (all_keys items ≡ true)
  unfolding coerce
  coerce-keys (raw_str s) v e = checked_keys_lem (split_words s) v e
  coerce-keys (raw_bool b) v e = absurd (ground arith)
  coerce-keys (raw_items items s) v e = checked_keys_lem items v e
  coerce-keys (raw_other s) v e = absurd (ground arith)

  from_file-keys :
      (fd : Field) (o : Option Raw) (v : Value)
      → fd.kind ≡ tuple_kind
      → from_file fd o none ≡ some v
      → (items : List String) × (v ≡ keys_value items) × (all_keys items ≡ true)
  from_file-keys fd none v k e = absurd (not_some_value v e)
    where
      not_some_value : (v : Value) → none ≡ some v → ⊥
      not_some_value v e = ground arith
  from_file-keys fd (some raw) v k e =
      coerce-keys raw v (subst (λ (kind : Kind). coerce is_float kind raw ≡ some v) k e)

  -- A configuration that loads has no administrator's key but texts of 64 lower-case hexadecimal
  -- digits, wherever it has them from.
  pub admin_keys_checked :
      (table : List (String × Raw)) (env : String → Option String) (values : Values) (v : Value)
      → load_values is_float table env ≡ some values
      → values "admin_keys" ≡ some v
      → (items : List String) × (v ≡ keys_value items) × (all_keys items ≡ true)
  unfolding known_field
  admin_keys_checked table env values v e has =
      let fd : Field = record {
        name = "admin_keys";
        env_name = "TESSERA_ADMIN_KEYS";
        kind = tuple_kind;
      } in
      elim (load_values_order table env values fd refl e) [
        | inl (text, set, is) ↦ coerce-keys (raw_str text) v (sym is ∙ has)
        | inr (unset, is) ↦ from_file-keys fd (last_entry "admin_keys" table) v refl (sym is ∙ has)
      ]
