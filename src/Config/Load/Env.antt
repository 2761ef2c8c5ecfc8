-- ===== src/Config/Load/Env.antt =====
-- The loop of src/tessera/config.py over the environment.
use tessera_server.Common.{
  ◌≡◌, ◌⊎◌, inl, inr, refl, sym, ap, subst, ◌∙◌, String, Bool, true, false, ◌&&◌, Option, none,
  some, List, [], ◌∷◌, arith, str_eq, eq_iff, Bool-cases, Option-cases,
}
use tessera_server.Config.Load.{
  Field, raw_str, Value, Values, set_value, find_field, coerce, load_env,
}

-- No two fields have one name.
abbrev pub are_distinct : List Field → Bool
are_distinct [] = true
are_distinct (fd ∷ fields) =
    (elim (find_field fd.name fields) [ none ↦ true | some _ ↦ false ]) && are_distinct fields

value_in : String → Option Values → Option Value
value_in key none = none
value_in key (some values) = values key

pub same_value :
    (key : String) (values values' : Values) → some values ≡ some values' → values' key ≡ values key
unfolding value_in
same_value key values values' e = sym (ap (value_in key) e)

pub set_value-other :
    (key name : String) (v : Value) (values : Values)
    → str_eq name key ≡ false
    → set_value name v values key ≡ values key
set_value-other key name v values h = ground (arith, eq_iff name key, eq_iff key name)

pub set_value-same :
    (key name : String) (v : Value) (values : Values)
    → name ≡ key
    → set_value name v values key ≡ some v
set_value-same key name v values h = ground (arith, eq_iff key name)

pub not_some : (values : Values) → none ≡ some values → ⊥
not_some values e = ground arith

pub some_injective : (a b : Field) → some a ≡ some b → a ≡ b
some_injective a b e = ground arith

module _ (is_float : String → Bool) where
  load_env_unset :
      (fd : Field) (fields : List Field) (env : String → Option String) (values : Values)
      → env fd.env_name ≡ none
      → load_env is_float (fd ∷ fields) env values ≡ load_env is_float fields env values
  unfolding load_env
  load_env_unset fd fields env values unset = rw (unset, load_env) refl

  load_env_bad :
      (fd : Field) (fields : List Field) (env : String → Option String) (values : Values)
      (text : String)
      → env fd.env_name ≡ some text
      → coerce is_float fd.kind (raw_str text) ≡ none
      → load_env is_float (fd ∷ fields) env values ≡ none
  unfolding load_env
  load_env_bad fd fields env values text set bad = rw (set, load_env) (rw bad refl)

  load_env_good :
      (fd : Field) (fields : List Field) (env : String → Option String) (values : Values)
      (text : String) (v : Value)
      → env fd.env_name ≡ some text
      → coerce is_float fd.kind (raw_str text) ≡ some v
      → load_env is_float (fd ∷ fields) env values
        ≡ load_env is_float fields env (set_value fd.name v values)
  unfolding load_env
  load_env_good fd fields env values text v set good = rw (set, load_env) (rw good refl)

  -- One round of the loop: the variable is not set, or it is coerced.
  load_env_cases :
      (fd : Field) (fields : List Field) (env : String → Option String) (values values' : Values)
      → load_env is_float (fd ∷ fields) env values ≡ some values'
      → ((env fd.env_name ≡ none) × (load_env is_float fields env values ≡ some values'))
        ⊎ ((text : String) × (v : Value) × (env fd.env_name ≡ some text)
            × (coerce is_float fd.kind (raw_str text) ≡ some v)
            × (load_env is_float fields env (set_value fd.name v values) ≡ some values'))
  load_env_cases fd fields env values values' e = elim (Option-cases (env fd.env_name)) [
    | inl unset ↦ inl (unset, sym (load_env_unset fd fields env values unset) ∙ e)
    | inr (text, set) ↦ elim (Option-cases (coerce is_float fd.kind (raw_str text))) [
      | inl bad ↦
          absurd (not_some values' (sym (load_env_bad fd fields env values text set bad) ∙ e))
      | inr (v, good) ↦
          inr (text, v, set, good, sym (load_env_good fd fields env values text v set good) ∙ e)
    ]
  ]

  -- A field that is not in the list keeps its value.
  load_env-other :
      (fields : List Field) (env : String → Option String) (values values' : Values) (key : String)
      → load_env is_float fields env values ≡ some values'
      → find_field key fields ≡ none
      → values' key ≡ values key
  unfolding load_env
  load_env-other [] env values values' key e absent = same_value key values values' e
  load_env-other (fd ∷ fields) env values values' key e absent =
      let apart : str_eq fd.name key ≡ false = ground arith in
      let later : find_field key fields ≡ none = ground arith in
      elim (load_env_cases fd fields env values values' e) [
        | inl (unset, rest) ↦ load_env-other fields env values values' key rest later
        | inr (text, v, set, good, rest) ↦
            load_env-other fields env (set_value fd.name v values) values' key rest later
            ∙ set_value-other key fd.name v values apart
      ]

  -- What a field of the list is worth behind the loop.
  abbrev pub FromEnv : Field → (String → Option String) → Values → Values → Type 0
  FromEnv fd env values values' =
      ((env fd.env_name ≡ none) × (values' fd.name ≡ values fd.name))
      ⊎ ((text : String) × (env fd.env_name ≡ some text)
          × (values' fd.name ≡ coerce is_float fd.kind (raw_str text)))

  head-FromEnv :
      (fd : Field) (fields : List Field) (env : String → Option String) (values values' : Values)
      → find_field fd.name fields ≡ none
      → load_env is_float (fd ∷ fields) env values ≡ some values'
      → FromEnv fd env values values'
  head-FromEnv fd fields env values values' absent e =
      elim (load_env_cases fd fields env values values' e) [
        | inl (unset, rest) ↦
            inl (unset, load_env-other fields env values values' fd.name rest absent)
        | inr (text, v, set, good, rest) ↦ inr (
          text,
          set,
          load_env-other fields env (set_value fd.name v values) values' fd.name rest absent
              ∙ (set_value-same fd.name fd.name v values refl ∙ sym good),
        )
      ]

  FromEnv-earlier :
      (fd : Field) (env : String → Option String) (name : String) (v : Value)
      (values values' : Values)
      → str_eq name fd.name ≡ false
      → FromEnv fd env (set_value name v values) values'
      → FromEnv fd env values values'
  FromEnv-earlier fd env name v values values' apart (inl (unset, same)) =
      inl (unset, same ∙ set_value-other fd.name name v values apart)
  FromEnv-earlier fd env name v values values' apart (inr set) = inr set

  pub load_env-FromEnv :
      (fields : List Field) (env : String → Option String) (values values' : Values) (fd : Field)
      → are_distinct fields ≡ true
      → load_env is_float fields env values ≡ some values'
      → find_field fd.name fields ≡ some fd
      → FromEnv fd env values values'
  load_env-FromEnv [] env values values' fd d e found = absurd (ground arith)
  load_env-FromEnv (first ∷ fields) env values values' fd d e found =
      elim (Bool-cases (str_eq first.name fd.name)) [
        | inl same ↦
            let absent : find_field first.name fields ≡ none = ground arith in
            let it : first ≡ fd = ground arith in
            subst (λ (x : Field). FromEnv x env values values') it
              (head-FromEnv first fields env values values' absent e)
        | inr apart ↦
            let later : find_field fd.name fields ≡ some fd = ground arith in
            let distinct : are_distinct fields ≡ true = ground arith in
            elim (load_env_cases first fields env values values' e) [
              | inl (unset, rest) ↦
                  load_env-FromEnv fields env values values' fd distinct rest later
              | inr (text, v, set, good, rest) ↦
                  FromEnv-earlier fd env first.name v values values' apart (
                    load_env-FromEnv fields env (set_value first.name v values) values' fd distinct
                      rest later)
            ]
      ]
