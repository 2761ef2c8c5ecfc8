-- ===== src/Social/Favouriting.antt =====
-- handle_favourite of src/tessera/handlers_social.py.
pub mod Count
pub mod Listing
use tessera_server.Common.{ℕ, String, Bool, [], ◌∷◌, ◌==◌, Result, ok, raise, ◌>>=◌, if◌then◌else◌}
use tessera_server.Common.Table.{delete_where, count_where, upsert}
use tessera_server.Json.{Json, boolean, field, end, number, Loaded}
use tessera_server.Http.{Response, json_response, Uncaught}
use tessera_server.Db.{Db, is_favourite}
use tessera_server.Social.Request.{
  Fault, bad_request, read_json, read_model_id, item, answer_fault, with_visible_model,
}

abbrev truth : Json → Result Fault Bool
truth (boolean on) = ok on
truth _ = raise bad_request

-- The `try` block of handle_favourite.
unfoldable pub favourite_request : Loaded → Result Fault (ℕ × Bool)
unfolding read_json read_model_id
favourite_request body = do
  payload ← read_json body ("model_id" ∷ "on" ∷ [])
  model_id ← read_model_id payload
  raw ← item "on" payload
  on ← truth raw
  ok (model_id, on)

-- INSERT … ON CONFLICT DO NOTHING, or DELETE
unfoldable pub record_favourite : Db → ℕ → String → Bool → ℕ → Db
record_favourite db model_id owner on now = record db {
  favourites =
      if on
      then upsert (is_favourite model_id owner)
          (record { model_id = model_id; owner_key = owner; created_at = now }) (λ f. f)
          db.favourites
      else delete_where (is_favourite model_id owner) db.favourites;
}

abbrev pub favourite_count : Db → ℕ → ℕ
favourite_count db model_id = count_where (λ f. f.model_id == model_id) db.favourites

unfoldable pub set_favourite : Db → ℕ → String → Bool → ℕ → Result Uncaught Response × Db
unfolding record_favourite
set_favourite db model_id owner on now =
    let db' = record_favourite db model_id owner on now in
    (
      ok (
          json_response 200 (
            field "model_id" (number model_id) (
              field "favourited" (boolean on)
                (field "favourite_count" (number (favourite_count db' model_id)) end)))),
      db',
    )

-- handle_favourite
unfoldable pub handle_favourite : Loaded → String → ℕ → Db → Result Uncaught Response × Db
handle_favourite body key now db = elim (favourite_request body) [
  | raise e ↦ (answer_fault e, db)
  | ok (model_id, on) ↦ with_visible_model db key model_id (set_favourite db model_id key on now)
]
