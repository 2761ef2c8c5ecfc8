-- ===== src/Content/Browse/Pages.antt =====
-- The pages of GET /browse (src/tessera/handlers_content.py) against the models table.
use tessera_server.Common.Table.Laws.{All-select}
use tessera_server.Common.{
  ℕ, zero, suc, ◌+◌, ◌*◌, ◌-◌, ◌≤◌, ◌≡◌, ◌≢◌, ◌⊎◌, ◌↔◌, refl, sym, ap, ◌∙◌, String, Bool, true,
  false, ◌&&◌, ◌||◌, not, List, [], ◌∷◌, ◌++◌, arith, length, take, drop, ltb, ◌==◌, Bool-cases,
  inl, inr,
}
use tessera_server.Common.Int.{ℤ, pos_part, neg_part, ◌<ℤ◌, eq_of_parts}
use tessera_server.Common.Table.{select, count_where, exists_where}
use tessera_server.Common.Sort.{
  order_by, page_of, first_pages, first_pages_lem, Reordering, IsOrdered, IsKeyedBy,
  select-Reordering, count_where-Reordering, count_where-order_by, length-order_by,
  order_by-IsOrdered, order_by-Reordering,
}
use tessera_server.Config.{TesseraConfig}
use tessera_server.Db.{Db, Model}
use tessera_server.Social.Reporting.Threshold.{is_shown}
use tessera_server.Content.{Query}
use tessera_server.Content.Browse.{
  Order, newest, top, newest_first, top_first, may_precede, is_listed, listing, BrowseRequest,
  browse_request, browse_rows, handle_browse,
}

may_precede_total :
    (order : Order) (a b : Model) → may_precede order a b ≡ false → may_precede order b a ≡ true
may_precede_total newest a b h = ground arith
may_precede_total top a b h = ground arith

newest_numbers :
    (ta ia tb ib tc ic : ℕ)
    → (ltb tb ta || (ta == tb && not (ltb ia ib))) ≡ true
    → (ltb tc tb || (tb == tc && not (ltb ib ic))) ≡ true
    → (ltb tc ta || (ta == tc && not (ltb ia ic))) ≡ true
newest_numbers ta ia tb ib tc ic h k = ground arith

newest_first_trans :
    (a b c : Model) → newest_first a b ≡ true → newest_first b c ≡ true → newest_first a c ≡ true
newest_first_trans a b c = newest_numbers a.created_at a.id b.created_at b.id c.created_at c.id

top_first_iff :
    (a b : Model)
    → (top_first a b ≡ true)
      ↔ ((b.score <ℤ a.score) ⊎ ((a.score ≡ b.score) × (newest_first a b ≡ true)))
top_first_iff a b = scores a.score b.score (newest_first a b)
  where
    scores :
        (x y : ℤ) (n : Bool)
        → ((ltb (pos_part y + neg_part x) (pos_part x + neg_part y)
              || (not (ltb (pos_part x + neg_part y) (pos_part y + neg_part x)) && n))
            ≡ true)
          ↔ ((y <ℤ x) ⊎ ((x ≡ y) × (n ≡ true)))
    scores x y n = ground (arith, eq_of_parts x y)

lex_trans :
    (x y z : ℤ) (P Q R : Type 0)
    → (P → Q → R)
    → (y <ℤ x) ⊎ ((x ≡ y) × P)
    → (z <ℤ y) ⊎ ((y ≡ z) × Q)
    → (z <ℤ x) ⊎ ((x ≡ z) × R)
lex_trans x y z P Q R f (inl h) (inl k) = inl (omega arith)
lex_trans x y z P Q R f (inl h) (inr (e, q)) = inl (rw (← e) h)
lex_trans x y z P Q R f (inr (e, p)) (inl k) = inl (rw e k)
lex_trans x y z P Q R f (inr (e, p)) (inr (g, q)) = inr (e ∙ g, f p q)

may_precede_trans :
    (order : Order) (a b c : Model)
    → may_precede order a b ≡ true
    → may_precede order b c ≡ true
    → may_precede order a c ≡ true
may_precede_trans newest a b c h k = newest_first_trans a b c h k
may_precede_trans top a b c h k = (top_first_iff a c).1 (
    lex_trans a.score b.score c.score (newest_first a b ≡ true) (newest_first b c ≡ true)
      (newest_first a c ≡ true) (newest_first_trans a b c) ((top_first_iff a b).0 h)
      ((top_first_iff b c).0 k))

may_precede_antisymm :
    (order : Order) (a b : Model)
    → may_precede order a b ≡ true
    → may_precede order b a ≡ true
    → a.id ≡ b.id
may_precede_antisymm newest a b h k = ground arith
may_precede_antisymm top a b h k = ground arith

module _ {ℓ} {A : Type ℓ} where
  count_where-select :
      (p q : A → Bool) (xs : List A)
      → count_where p (select q xs) ≡ count_where (λ x. q x && p x) xs
  count_where-select p q [] = refl
  count_where-select p q (x ∷ xs) = ground (arith, count_where-select p q xs)

  length-select : (q : A → Bool) (xs : List A) → length (select q xs) ≡ count_where q xs
  length-select q [] = refl
  length-select q (x ∷ xs) = ground (arith, length-select q xs)

  take_all : (n : ℕ) (xs : List A) → length xs ≤ n → take n xs ≡ xs
  take_all zero [] h = refl
  take_all zero (x ∷ xs) h = absurd (omega arith)
  take_all (suc n) [] h = refl
  take_all (suc n) (x ∷ xs) h = ap (λ (t : List A). x ∷ t) (take_all n xs (omega arith))

  count_where-take :
      (p : A → Bool) (n : ℕ) (xs : List A) → count_where p (take n xs) ≤ count_where p xs
  count_where-take p zero xs = omega arith
  count_where-take p (suc n) [] = omega arith
  count_where-take p (suc n) (x ∷ xs) = omega (arith, count_where-take p n xs)

  count_where-drop :
      (p : A → Bool) (n : ℕ) (xs : List A) → count_where p (drop n xs) ≤ count_where p xs
  count_where-drop p zero xs = omega arith
  count_where-drop p (suc n) [] = omega arith
  count_where-drop p (suc n) (x ∷ xs) = omega (arith, count_where-drop p n xs)

module _ (order : Order) (kind : String) (models : List Model) where
  -- The rows of the first `count` pages of `per_page` rows, one page behind the other.
  abbrev pub browsed : ℕ → ℕ → List Model
  browsed per_page zero = []
  browsed per_page (suc count) =
      browsed per_page count
      ++ browse_rows (record { page = suc count; per_page = per_page; order = order; kind = kind })
          models

  browsed-first_pages :
      (per_page count : ℕ)
      → browsed per_page count ≡ first_pages per_page count (listing order kind models)
  unfolding browse_rows
  browsed-first_pages per_page zero = refl
  browsed-first_pages per_page (suc n) =
      ap (λ (t : List Model). t ++ page_of per_page (suc n) (listing order kind models))
        (browsed-first_pages per_page n)

  browsed_lem :
      (per_page count : ℕ)
      → browsed per_page count ≡ take (count * per_page) (listing order kind models)
  browsed_lem per_page count =
      browsed-first_pages per_page count
      ∙ first_pages_lem per_page count (listing order kind models)

  length-listing : length (listing order kind models) ≡ count_where (is_listed kind) models
  unfolding listing
  length-listing =
      length-order_by (may_precede order) (select (is_listed kind) models)
      ∙ length-select (is_listed kind) models

  browsed-listing :
      (per_page count : ℕ)
      → count_where (is_listed kind) models ≤ count * per_page
      → browsed per_page count ≡ listing order kind models
  browsed-listing per_page count enough =
      browsed_lem per_page count ∙ take_all _ _ (rw length-listing enough)

  -- Enough pages show every listed row, as often as it is in the table, and no other row; and each
  -- row may stand before all that follow it in the order of the query.
  pub browsed_complete :
      (per_page count : ℕ) (p : Model → Bool)
      → count_where (is_listed kind) models ≤ count * per_page
      → (count_where p (browsed per_page count) ≡ count_where (λ m. is_listed kind m && p m) models)
        × IsOrdered (may_precede order) (browsed per_page count)
  unfolding listing
  browsed_complete per_page count p enough = rw (browsed-listing per_page count enough) (
    count_where-order_by (may_precede order) p (select (is_listed kind) models)
        ∙ count_where-select p (is_listed kind) models,
    order_by-IsOrdered (may_precede order) (may_precede_total order) (may_precede_trans order)
        (select (is_listed kind) models),
  )

not_shown :
    (kind : String) (id : ℕ) (models : List Model)
    → exists_where (is_shown id) models ≡ false
    → count_where (λ m. is_listed kind m && m.id == id) models ≡ 0
not_shown kind id [] h = refl
not_shown kind id (m ∷ models) h = ground (arith, not_shown kind id models)

-- A model that is not public is on no page, whatever the query.
pub unlisted_not_browsed :
    (q : BrowseRequest) (models : List Model) (id : ℕ)
    → exists_where (is_shown id) models ≡ false
    → count_where (λ m. m.id == id) (browse_rows q models) ≡ 0
unfolding browse_rows listing
unlisted_not_browsed q models id hidden =
    let rows = select (is_listed q.kind) models in
    let ordered = order_by (may_precede q.order) rows in
    let skip = (q.page - 1) * q.per_page in
    omega (
      arith,
      count_where-take (λ m. m.id == id) q.per_page (drop skip ordered),
      count_where-drop (λ m. m.id == id) skip ordered,
      count_where-order_by (may_precede q.order) (λ m. m.id == id) rows,
      count_where-select (λ m. m.id == id) (is_listed q.kind) models,
      not_shown q.kind id models hidden,
    )

IsKeyedBy-select :
    {A : Type 0} (q : A → Bool) (key : A → ℕ) (xs : List A)
    → IsKeyedBy key xs
    → IsKeyedBy key (select q xs)
IsKeyedBy-select q key [] h = tt
IsKeyedBy-select q key (x ∷ xs) h = elim (Bool-cases (q x)) [
  | inl e ↦ rw e (All-select (λ y. key x ≢ key y) q xs h.0, IsKeyedBy-select q key xs h.1)
  | inr e ↦ rw e (IsKeyedBy-select q key xs h.1)
]

-- With one row for each id the answer does not depend on the order of the rows in the table.
pub handle_browse-Reordering :
    (cfg : TesseraConfig) (query : Query) (db : Db) (models : List Model)
    → Reordering db.models models
    → IsKeyedBy (λ m. m.id) db.models
    → handle_browse cfg query (record db { models = models }) ≡ handle_browse cfg query db
unfolding handle_browse browse_rows listing
handle_browse-Reordering cfg query db models r keyed =
    let q = browse_request cfg query in
    rw
      (
        sym (count_where-Reordering (is_listed q.kind) r),
        sym (
            order_by-Reordering (may_precede q.order) (may_precede_total q.order)
              (may_precede_trans q.order) (λ m. m.id) (may_precede_antisymm q.order)
              (select-Reordering (is_listed q.kind) r)
              (IsKeyedBy-select (is_listed q.kind) (λ m. m.id) db.models keyed)),
      )
      refl
