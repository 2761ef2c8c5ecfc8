-- ===== src/Social/Favouriting/Listing.antt =====
-- handle_favourites of src/tessera/handlers_social.py.
use tessera_server.Common.{
  ℕ, ◌-◌, ◌*◌, ◌≡◌, ◌≢◌, refl, String, Bool, true, false, not, Option, none, some, List, [], ◌∷◌,
  ◌||◌, ltb, str_eq, eq_iff, arith, Result, ok, raise, if◌then◌else◌,
}
use tessera_server.Common.Table.{select, upsert, delete_where}
use tessera_server.Common.Sort.{order_by, page_of}
use tessera_server.Config.{TesseraConfig}
use tessera_server.Json.{arr, field, end, number}
use tessera_server.Http.{Response, json_response, Uncaught, exception}
use tessera_server.Db.{Db, Model, Favourite, is_deleted, is_favourite, find_model, max_sql_int}
use tessera_server.Content.{Query, positive_int}
use tessera_server.Content.Browse.{items_of, max_page}
use tessera_server.Social.Favouriting.{record_favourite}

abbrev join_one : Favourite → Option Model → List (ℕ × Model) → List (ℕ × Model)
join_one f none rest = rest
join_one f (some m) rest = if is_deleted m.visibility then rest else (f.created_at, m) ∷ rest

-- FROM favourites f JOIN models m ON m.id = f.model_id WHERE m.visibility != 'deleted': the time of
-- the favourite, and the model
abbrev pub joined : List Favourite → List Model → List (ℕ × Model)
joined [] models = []
joined (f ∷ fs) models = join_one f (find_model f.model_id models) (joined fs models)

-- ORDER BY f.created_at DESC. Favourites of one second, whose order SQL leaves open, stand in the
-- order of the table.
abbrev later_first : ℕ × Model → ℕ × Model → Bool
later_first a b = not (ltb a.0 b.0)

abbrev models_of : List (ℕ × Model) → List Model
models_of [] = []
models_of (row ∷ rows) = row.1 ∷ models_of rows

-- The models that the key has favourited, the latest favourite first.
unfoldable pub favourites_of : String → Db → List Model
favourites_of key db =
    models_of
      (order_by later_first (joined (select (λ f. str_eq f.owner_key key) db.favourites) db.models))

-- handle_favourites
unfoldable pub handle_favourites : TesseraConfig → Query → String → Db → Result Uncaught Response
unfolding positive_int favourites_of
handle_favourites cfg query key db =
    let page = positive_int (query "page") 1 max_page in
    let per_page = positive_int (query "per_page") cfg.browse_page_size cfg.browse_max_page_size in
    if ltb max_sql_int per_page || ltb max_sql_int ((page - 1) * per_page)
    then raise exception
    else ok (
        json_response 200 (
          field "page" (number page) (
            field "per_page" (number per_page)
              (field "items" (arr (items_of (page_of per_page page (favourites_of key db)))) end))))

module _ {A : Type 0} (p q : A → Bool) where
  select-upsert :
      (x : A) (rows : List A) → q x ≡ false → select q (upsert p x (λ r. r) rows) ≡ select q rows
  select-upsert x [] h = ground arith
  select-upsert x (r ∷ rows) h = ground (arith, select-upsert x rows)

  select-delete :
      (rows : List A)
      → ((r : A) → p r ≡ true → q r ≡ false)
      → select q (delete_where p rows) ≡ select q rows
  select-delete [] h = refl
  select-delete (r ∷ rows) h = ground (arith, select-delete rows, h r)

others-kept :
    (key other : String) (db : Db) (model_id : ℕ) (on : Bool) (now : ℕ)
    → other ≢ key
    → select (λ f. str_eq f.owner_key key) (record_favourite db model_id other on now).favourites
      ≡ select (λ f. str_eq f.owner_key key) db.favourites
unfolding record_favourite
others-kept key other db model_id true now apart =
    select-upsert (is_favourite model_id other) (λ f. str_eq f.owner_key key) _ db.favourites
      (ground (arith, eq_iff other key))
others-kept key other db model_id false now apart =
    select-delete (is_favourite model_id other) (λ f. str_eq f.owner_key key) db.favourites
      (λ f h. ground (arith, eq_iff f.owner_key key, eq_iff f.owner_key other))

-- What another key marks or unmarks does not change the favourites that a key is shown.
pub favourites_isolated :
    (cfg : TesseraConfig) (query : Query) (key other : String) (db : Db) (model_id : ℕ) (on : Bool)
    (now : ℕ)
    → other ≢ key
    → handle_favourites cfg query key (record_favourite db model_id other on now)
      ≡ handle_favourites cfg query key db
unfolding handle_favourites favourites_of record_favourite
favourites_isolated cfg query key other db model_id on now apart =
    rw (others-kept key other db model_id on now apart) refl
