-- ===== src/Social/Favouriting/Count.antt =====
-- The number of favourites of a model, under handle_favourite of src/tessera/handlers_social.py.
use tessera_server.Common.{
  ℕ, ◌+◌, ◌≤◌, ◌≡◌, refl, String, Bool, false, List, [], ◌∷◌, arith, ◌==◌, Bool-cases, inl, inr,
  if◌then◌else◌, ok, some,
}
use tessera_server.Common.Table.{delete_where, count_where, upsert}
use tessera_server.Json.{Loaded, boolean, field, end, number}
use tessera_server.Http.{json_response}
use tessera_server.Db.{Db, Model, Favourite, is_favourite, is_banned, max_sql_int}
use tessera_server.Social.Request.{require_visible_model, with_visible_model_open}
use tessera_server.Social.Favouriting.{
  favourite_request, record_favourite, favourite_count, set_favourite, handle_favourite,
}

abbrev of_model : ℕ → List Favourite → ℕ
of_model id = count_where (λ f. f.model_id == id)

of_model-delete :
    (id : ℕ) (owner : String) (rows : List Favourite)
    → of_model id (delete_where (is_favourite id owner) rows)
        + count_where (is_favourite id owner) rows
      ≡ of_model id rows
of_model-delete id owner [] = refl
of_model-delete id owner (f ∷ rows) = ground (arith, of_model-delete id owner rows)

of_model-upsert :
    (id : ℕ) (owner : String) (new : Favourite)
    → new.model_id ≡ id
    → (rows : List Favourite) → count_where (is_favourite id owner) rows ≤ 1
    → of_model id (upsert (is_favourite id owner) new (λ f. f) rows)
        + count_where (is_favourite id owner) rows
      ≡ of_model id rows + 1
of_model-upsert id owner new e [] h = ground arith
of_model-upsert id owner new e (f ∷ rows) h =
    ground (arith, of_model-upsert id owner new e rows, of_model-delete id owner rows)

-- POST /favourite by a key that is not banned, on a model that is not deleted, answers 200 with
-- the number of favourites of the model, which is the number before, less the caller's own, plus
-- one if the caller favours the model now.
pub favourite_counted :
    (body : Loaded) (key : String) (now : ℕ) (db : Db) (id : ℕ) (on : Bool) (m : Model)
    → favourite_request body ≡ ok (id, on)
    → is_banned db key ≡ false
    → id ≤ max_sql_int
    → require_visible_model db id ≡ some m
    → count_where (is_favourite id key) db.favourites ≤ 1
    → (count : ℕ) × ((handle_favourite body key now db).0
        ≡ ok (
            json_response 200 (
              field "model_id"
                (number id)
                (field "favourited" (boolean on) (field "favourite_count" (number count) end)))))
      × (count ≡ favourite_count (handle_favourite body key now db).1 id)
      × (count + count_where (is_favourite id key) db.favourites
          ≡ favourite_count db id + (if on then 1 else 0))
unfolding handle_favourite set_favourite record_favourite
favourite_counted body key now db id on m parsed free fits visible keyed =
    let act = set_favourite db id key on now in
    let same : handle_favourite body key now db ≡ act =
      rw (parsed, handle_favourite) (with_visible_model_open db key id m act free fits visible) in
    (
      favourite_count (record_favourite db id key on now) id,
      rw same refl,
      rw same refl,
      elim (Bool-cases on) [
        | inl e ↦ rw e (of_model-upsert id key _ refl db.favourites keyed)
        | inr e ↦ rw e (omega (arith, of_model-delete id key db.favourites))
      ],
    )
