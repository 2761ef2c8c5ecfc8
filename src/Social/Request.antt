-- ===== src/Social/Request.antt =====
-- The request parsing that the social and the admin handlers share (src/tessera/handlers_social.py).
use tessera_server.Common.{
  ℕ, suc, String, Bool, true, false, ◌&&◌, not, Option, none, some, List, [], ◌∷◌, ltb, ◌==◌,
  Result, ok, raise, ◌>>=◌, ◌>>◌, raise_if, if◌then◌else◌, Bool-cases, Option-cases, inl, inr, ◌≡◌,
  ◌≤◌, ◌⊎◌, sym, subst, arith,
}
use tessera_server.Common.Int.{pos}
use tessera_server.Common.Table.{fetch_one}
use tessera_server.Json.{Json, int, obj, Fields, Loaded, value, decode_error, other_error, get, has}
use tessera_server.Http.{Response, error, Uncaught, exception}
use tessera_server.Db.{Db, Model, is_deleted, is_banned, max_sql_int}

-- BadRequest, or an exception that the handler does not catch.
pub data Fault : Type 0 where
  bad_request uncaught : Fault

abbrev loaded : Loaded → Result Fault Json
loaded (value v) = ok v
loaded decode_error = raise bad_request
loaded other_error = raise uncaught

abbrev object : Json → Result Fault Fields
object (obj fields) = ok fields
object _ = raise bad_request

abbrev all_present : List String → Fields → Bool
all_present [] fields = true
all_present (name ∷ names) fields = has name fields && all_present names fields

-- payload[name], whose KeyError nothing catches
abbrev pub item : String → Fields → Result Fault Json
item name fields = elim (get name fields) [ none ↦ raise uncaught | some v ↦ ok v ]

-- read_json
unfoldable pub read_json : Loaded → List String → Result Fault Fields
read_json body names = do
  document ← loaded body
  fields ← object document
  raise_if (not (all_present names fields)) bad_request
  ok fields

abbrev positive : Json → Result Fault ℕ
positive (int (pos (suc n))) = ok (suc n)
positive _ = raise bad_request

-- read_model_id
unfoldable pub read_model_id : Fields → Result Fault ℕ
read_model_id fields = do raw ← item "model_id" fields; positive raw

-- `except BadRequest`
unfoldable pub answer_fault : Fault → Result Uncaught Response
answer_fault bad_request = ok (error 400 "bad_request")
answer_fault uncaught = raise exception

-- require_visible_model, for an id that sqlite3 can bind
unfoldable pub require_visible_model : Db → ℕ → Option Model
require_visible_model db model_id =
    fetch_one (λ m. m.id == model_id && not (is_deleted m.visibility)) db.models

-- The two checks between the parsed body and the writes of a social handler: require_not_banned,
-- then require_visible_model. `act` is what follows them.
unfoldable pub with_visible_model :
    Db → String → ℕ → Result Uncaught Response × Db → Result Uncaught Response × Db
with_visible_model db key model_id act =
    if is_banned db key
    then (ok (error 403 "banned"), db)
    else if ltb max_sql_int model_id
    then (raise exception, db)
    else elim (require_visible_model db model_id) [
      | none ↦ (ok (error 404 "not_found"), db)
      | some _ ↦ act
    ]

-- The checks write nothing, and `act` is all that may follow them, on a model that is there.
with_visible_model_cases :
    (db : Db) (key : String) (model_id : ℕ) (act : Result Uncaught Response × Db)
    → ((with_visible_model db key model_id act).1 ≡ db)
      ⊎ ((m : Model) × (require_visible_model db model_id ≡ some m)
          × (with_visible_model db key model_id act ≡ act))
unfolding with_visible_model
with_visible_model_cases db key model_id act = elim (Bool-cases (is_banned db key)) [
  | inl e ↦ inl (ground arith)
  | inr e ↦ elim (Bool-cases (ltb max_sql_int model_id)) [
    | inl big ↦ inl (ground arith)
    | inr small ↦ elim (Option-cases (require_visible_model db model_id)) [
      | inl missing ↦ inl (ground arith)
      | inr (m, found) ↦ inr (m, found, ground arith)
    ]
  ]
]

pub with_visible_model-keeps_found :
    (P : Db → Type 0) (db : Db) (key : String) (model_id : ℕ) (act : Result Uncaught Response × Db)
    → P db
    → ((m : Model) → require_visible_model db model_id ≡ some m → P act.1)
    → P (with_visible_model db key model_id act).1
with_visible_model-keeps_found P db key model_id act h a =
    elim (with_visible_model_cases db key model_id act) [
      | inl same ↦ subst P (sym same) h
      | inr (m, found, done) ↦
          subst (λ (w : Result Uncaught Response × Db). P w.1) (sym done) (a m found)
    ]

pub with_visible_model-keeps :
    (P : Db → Type 0) (db : Db) (key : String) (model_id : ℕ) (act : Result Uncaught Response × Db)
    → P db
    → P act.1
    → P (with_visible_model db key model_id act).1
with_visible_model-keeps P db key model_id act h a =
    with_visible_model-keeps_found P db key model_id act h (λ m found. a)

-- When a key that is not banned names a model that is not deleted, `act` is what happens.
pub with_visible_model_open :
    (db : Db) (key : String) (model_id : ℕ) (m : Model) (act : Result Uncaught Response × Db)
    → is_banned db key ≡ false
    → model_id ≤ max_sql_int
    → require_visible_model db model_id ≡ some m
    → with_visible_model db key model_id act ≡ act
unfolding with_visible_model
with_visible_model_open db key model_id m act free fits found = ground arith

-- A banned key is refused before anything is looked up.
pub with_visible_model_banned :
    (db : Db) (key : String) (model_id : ℕ) (act : Result Uncaught Response × Db)
    → is_banned db key ≡ true
    → with_visible_model db key model_id act ≡ (ok (error 403 "banned"), db)
unfolding with_visible_model
with_visible_model_banned db key model_id act b = ground arith
