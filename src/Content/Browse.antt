-- ===== src/Content/Browse.antt =====
-- handle_browse of src/tessera/handlers_content.py.
pub mod Pages
use tessera_server.Common.{
  ℕ, zero, suc, ◌+◌, ◌*◌, ◌-◌, String, Bool, true, false, ◌&&◌, ◌||◌, not, Option, none, some, List,
  [], ◌∷◌, Result, ok, raise, ltb, ◌==◌, str_eq, if◌then◌else◌,
}
use tessera_server.Common.Int.{ℤ, pos, pos_part, neg_part}
use tessera_server.Common.Table.{select, count_where}
use tessera_server.Common.Sort.{order_by, page_of}
use tessera_server.Config.{TesseraConfig}
use tessera_server.Json.{Json, Items, nil, cons, obj, arr, field, end, str, int, number}
use tessera_server.Http.{Response, json_response, Uncaught, exception}
use tessera_server.Db.{Db, Model, is_public, max_sql_int}
use tessera_server.Content.{Query, positive_int, first_or}

-- _SORTS
pub data Order : Type 0 where
  newest top : Order

-- _SORTS.get(…, _SORTS["new"])
abbrev pub read_order : String → Order
read_order name = if str_eq name "top" then top else newest

-- "created_at DESC, id DESC"
abbrev pub newest_first : Model → Model → Bool
newest_first a b =
    ltb b.created_at a.created_at || (a.created_at == b.created_at && not (ltb a.id b.id))

-- "score DESC, created_at DESC, id DESC"
abbrev pub top_first : Model → Model → Bool
top_first a b =
    let more = ltb (pos_part b.score + neg_part a.score) (pos_part a.score + neg_part b.score) in
    let less = ltb (pos_part a.score + neg_part b.score) (pos_part b.score + neg_part a.score) in
    more || (not less && newest_first a b)

abbrev pub may_precede : Order → Model → Model → Bool
may_precede newest = newest_first
may_precede top = top_first

-- The WHERE clause: public, and of one kind if the query names one of the two.
abbrev pub is_listed : String → Model → Bool
is_listed kind m =
    is_public m.visibility
    && (if str_eq kind "pixel" || str_eq kind "model" then str_eq m.kind kind else true)

-- SELECT … WHERE … ORDER BY …
unfoldable pub listing : Order → String → List Model → List Model
listing order kind models = order_by (may_precede order) (select (is_listed kind) models)

-- BROWSE_FIELDS of one row
abbrev pub browse_item : Model → Json
browse_item m = obj (
    field "id" (number m.id) (
      field "title" (str m.title) (
        field "author_key" (str m.author_key) (
          field "kind" (str m.kind) (
            field "thumb_hash" (str m.thumb_hash) (
              field "score" (int m.score) (
                field "up_votes" (number m.up_votes) (
                  field "down_votes" (number m.down_votes)
                    (field "created_at" (number m.created_at) end)))))))))

abbrev pub items_of : List Model → Items
items_of [] = nil
items_of (m ∷ ms) = cons (browse_item m) (items_of ms)

-- The parameters of the query.
pub record BrowseRequest : Type 0 where
  pub page : ℕ
  pub per_page : ℕ
  pub order : Order
  pub kind : String

abbrev pub max_page : ℕ
max_page = 1000000

unfoldable pub browse_request : TesseraConfig → Query → BrowseRequest
unfolding positive_int
browse_request cfg query = record {
  page = positive_int (query "page") 1 max_page;
  per_page = positive_int (query "per_page") cfg.browse_page_size cfg.browse_max_page_size;
  order = read_order (first_or (query "sort") "new");
  kind = first_or (query "kind") "";
}

-- The rows of the page.
unfoldable pub browse_rows : BrowseRequest → List Model → List Model
unfolding listing
browse_rows q models = page_of q.per_page q.page (listing q.order q.kind models)

-- handle_browse; a limit or an offset that SQLite cannot bind raises
unfoldable pub handle_browse : TesseraConfig → Query → Db → Result Uncaught Response
unfolding browse_request browse_rows
handle_browse cfg query db =
    let q = browse_request cfg query in
    if ltb max_sql_int q.per_page || ltb max_sql_int ((q.page - 1) * q.per_page)
    then raise exception
    else ok (
        json_response 200 (
          field "page" (number q.page) (
            field "per_page" (number q.per_page) (
              field "total" (number (count_where (is_listed q.kind) db.models))
                (field "items" (arr (items_of (browse_rows q db.models))) end)))))
