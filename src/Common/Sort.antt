-- ===== src/Common/Sort.antt =====
-- ORDER BY, and the pages that LIMIT and OFFSET cut. `le` says which row may stand first.
pub mod Keyed
use Prim.Native.Nat.{ℕ, zero, suc, ◌+◌, ◌*◌, ◌-◌}
use mathlib.Core.Path.{◌≡◌, refl, sym, ap, ◌∙◌}
use mathlib.Core.Logic.{inl, inr, ◌≢◌}
use mathlib.Core.Bool.{Bool, true, false}
use mathlib.Core.List.{List, [], ◌∷◌, ◌++◌}
use native.Mathlib.Omega.{arith}
use tessera_server.Common.Lists.{All, length, take, drop}
use tessera_server.Common.Tests.{if◌then◌else◌, Bool-cases}
use tessera_server.Common.Table.{count_where, select}

-- The same rows in another order, exchange by exchange.
pub data Reordering {ℓ} {A : Type ℓ} : List A → List A → Type ℓ where
  done : Reordering [] []
  keep : {xs ys : List A} (x : A) → Reordering xs ys → Reordering (x ∷ xs) (x ∷ ys)
  swap : (x y : A) (xs : List A) → Reordering (x ∷ y ∷ xs) (y ∷ x ∷ xs)
  chain : {xs ys zs : List A} → Reordering xs ys → Reordering ys zs → Reordering xs zs

Reordering-refl {ℓ} : {A : Type ℓ} (xs : List A) → Reordering xs xs
Reordering-refl [] = done
Reordering-refl (x ∷ xs) = keep x (Reordering-refl xs)

pub All-Reordering {ℓ κ} :
    {A : Type ℓ} (P : A → Type κ) {xs ys : List A} → Reordering xs ys → All P xs → All P ys
All-Reordering P done h = tt
All-Reordering P (keep x r) h = (h.0, All-Reordering P r h.1)
All-Reordering P (swap x y xs) h = (h.1.0, (h.0, h.1.1))
All-Reordering P (chain r s) h = All-Reordering P s (All-Reordering P r h)

pub count_where-Reordering {ℓ} :
    {A : Type ℓ} (q : A → Bool) {xs ys : List A}
    → Reordering xs ys
    → count_where q xs ≡ count_where q ys
count_where-Reordering q done = refl
count_where-Reordering q (keep x r) = omega (arith, count_where-Reordering q r)
count_where-Reordering q (swap x y xs) = omega arith
count_where-Reordering q (chain r s) = count_where-Reordering q r ∙ count_where-Reordering q s

pub select-Reordering {ℓ} :
    {A : Type ℓ} (q : A → Bool) {xs ys : List A}
    → Reordering xs ys
    → Reordering (select q xs) (select q ys)
select-Reordering q done = done
select-Reordering q (keep x r) = elim (Bool-cases (q x)) [
  | inl e ↦ rw e (keep x (select-Reordering q r))
  | inr e ↦ rw e (select-Reordering q r)
]
select-Reordering q (swap x y xs) = elim (Bool-cases (q x)) [
  | inl e ↦ elim (Bool-cases (q y)) [
    | inl f ↦ rw (e, f) (swap x y (select q xs))
    | inr f ↦ rw (e, f) (Reordering-refl (x ∷ select q xs))
  ]
  | inr e ↦ elim (Bool-cases (q y)) [
    | inl f ↦ rw (e, f) (Reordering-refl (y ∷ select q xs))
    | inr f ↦ rw (e, f) (Reordering-refl (select q xs))
  ]
]
select-Reordering q (chain r s) = chain (select-Reordering q r) (select-Reordering q s)

-- No two rows with one key.
abbrev pub IsKeyedBy {ℓ} : {A : Type ℓ} → (A → ℕ) → List A → Type 0
IsKeyedBy key [] = Unit {0}
IsKeyedBy key (x ∷ xs) = All (λ y. key x ≢ key y) xs × IsKeyedBy key xs

module _ {ℓ} {A : Type ℓ} (le : A → A → Bool) where
  abbrev pub insert_by : A → List A → List A
  insert_by x [] = x ∷ []
  insert_by x (y ∷ ys) = let rest = insert_by x ys in if le x y then x ∷ y ∷ ys else y ∷ rest

  unfoldable pub order_by : List A → List A
  order_by [] = []
  order_by (x ∷ xs) = insert_by x (order_by xs)

  -- Each row may stand before all that follow it.
  abbrev pub IsOrdered : List A → Type 0
  IsOrdered [] = Unit {0}
  IsOrdered (x ∷ xs) = All (λ y. le x y ≡ true) xs × IsOrdered xs

  All-insert_by {κ} :
      (P : A → Type κ) (x : A) (xs : List A) → P x → All P xs → All P (insert_by x xs)
  All-insert_by P x [] p h = (p, tt)
  All-insert_by P x (y ∷ ys) p h = elim (Bool-cases (le x y)) [
    | inl e ↦ rw e (p, h)
    | inr e ↦ rw e (h.0, All-insert_by P x ys p h.1)
  ]

  -- What holds of all rows holds of all of them in order.
  pub All-order_by {κ} : (P : A → Type κ) (xs : List A) → All P xs → All P (order_by xs)
  unfolding order_by
  All-order_by P [] h = tt
  All-order_by P (x ∷ xs) h = All-insert_by P x (order_by xs) h.0 (All-order_by P xs h.1)

  count_where-insert_by :
      (q : A → Bool) (x : A) (xs : List A) → count_where q (insert_by x xs) ≡ count_where q (x ∷ xs)
  count_where-insert_by q x [] = refl
  count_where-insert_by q x (y ∷ ys) = ground (arith, count_where-insert_by q x ys)

  -- Rows of any kind are as many in order as before.
  pub count_where-order_by :
      (q : A → Bool) (xs : List A) → count_where q (order_by xs) ≡ count_where q xs
  unfolding order_by
  count_where-order_by q [] = refl
  count_where-order_by q (x ∷ xs) =
      omega (arith, count_where-insert_by q x (order_by xs), count_where-order_by q xs)

  length-insert_by : (x : A) (xs : List A) → length (insert_by x xs) ≡ suc (length xs)
  length-insert_by x [] = refl
  length-insert_by x (y ∷ ys) = ground (arith, length-insert_by x ys)

  pub length-order_by : (xs : List A) → length (order_by xs) ≡ length xs
  unfolding order_by
  length-order_by [] = refl
  length-order_by (x ∷ xs) = omega (arith, length-insert_by x (order_by xs), length-order_by xs)

  module _ (total : (a b : A) → le a b ≡ false → le b a ≡ true)
      (trans : (a b c : A) → le a b ≡ true → le b c ≡ true → le a c ≡ true) where
    Below-head :
        (x y : A) (ys : List A)
        → le x y ≡ true
        → All (λ z. le y z ≡ true) ys
        → All (λ z. le x z ≡ true) ys
    Below-head x y [] h a = tt
    Below-head x y (z ∷ zs) h a = (trans x y z h a.0, Below-head x y zs h a.1)

    insert_by-IsOrdered : (x : A) (xs : List A) → IsOrdered xs → IsOrdered (insert_by x xs)
    insert_by-IsOrdered x [] h = (tt, tt)
    insert_by-IsOrdered x (y ∷ ys) h = elim (Bool-cases (le x y)) [
      | inl e ↦ rw e ((e, Below-head x y ys e h.0), h)
      | inr e ↦
          rw e (
            All-insert_by (λ z. le y z ≡ true) x ys (total x y e) h.0,
            insert_by-IsOrdered x ys h.1,
          )
    ]

    pub order_by-IsOrdered : (xs : List A) → IsOrdered (order_by xs)
    unfolding order_by
    order_by-IsOrdered [] = tt
    order_by-IsOrdered (x ∷ xs) = insert_by-IsOrdered x (order_by xs) (order_by-IsOrdered xs)

    module _ (key : A → ℕ)
        (antisymm : (a b : A) → le a b ≡ true → le b a ≡ true → key a ≡ key b) where
      insert_by_comm :
          (x y : A) (xs : List A)
          → key x ≢ key y
          → insert_by x (insert_by y xs) ≡ insert_by y (insert_by x xs)
      insert_by_comm x y [] ne = ground (arith, total x y, total y x, antisymm x y)
      insert_by_comm x y (z ∷ zs) ne = ground (
        arith,
        total x y,
        total y x,
        antisymm x y,
        trans x y z,
        trans y x z,
        insert_by_comm x y zs,
      )

      IsKeyedBy-Reordering :
          {xs ys : List A} → Reordering xs ys → IsKeyedBy key xs → IsKeyedBy key ys
      IsKeyedBy-Reordering done h = tt
      IsKeyedBy-Reordering (keep x r) h =
          (All-Reordering (λ y. key x ≢ key y) r h.0, IsKeyedBy-Reordering r h.1)
      IsKeyedBy-Reordering (swap x y xs) h = ((λ e. h.0.0 (sym e), h.1.0), (h.0.1, h.1.1))
      IsKeyedBy-Reordering (chain r s) h = IsKeyedBy-Reordering s (IsKeyedBy-Reordering r h)

      -- With one row for each key the order is that of the rows, not of the table.
      pub order_by-Reordering :
          {xs ys : List A} → Reordering xs ys → IsKeyedBy key xs → order_by xs ≡ order_by ys
      unfolding order_by
      order_by-Reordering done h = refl
      order_by-Reordering (keep x r) h = ap (insert_by x) (order_by-Reordering r h.1)
      order_by-Reordering (swap x y xs) h = insert_by_comm x y (order_by xs) h.0.0
      order_by-Reordering (chain r s) h =
          order_by-Reordering r h ∙ order_by-Reordering s (IsKeyedBy-Reordering r h)

suc_add : (n m : ℕ) → suc n + m ≡ suc (n + m)
suc_add n m = omega arith

none_of : (per_page : ℕ) → 0 * per_page ≡ 0
none_of per_page = omega arith

one_more : (per_page count : ℕ) → count * per_page + per_page ≡ suc count * per_page
one_more per_page count = grind arith

same_page : (count : ℕ) → suc count - 1 ≡ count
same_page count = omega arith

module _ {ℓ} {A : Type ℓ} where
  -- LIMIT `per_page` OFFSET `(page - 1) * per_page`, for a page from 1 on
  abbrev pub page_of : ℕ → ℕ → List A → List A
  page_of per_page page xs = take per_page (drop ((page - 1) * per_page) xs)

  -- The first `count` pages, one behind the other.
  abbrev pub first_pages : ℕ → ℕ → List A → List A
  first_pages per_page zero xs = []
  first_pages per_page (suc count) xs =
      first_pages per_page count xs ++ page_of per_page (suc count) xs

  take-nil : (n : ℕ) → take {A = A} n [] ≡ []
  take-nil zero = refl
  take-nil (suc n) = refl

  take_add : (n m : ℕ) (xs : List A) → take (n + m) xs ≡ take n xs ++ take m (drop n xs)
  take_add zero m xs = ap (λ (k : ℕ). take k xs) (omega arith)
  take_add (suc n) m [] = ap (λ (k : ℕ). take {A = A} k []) (suc_add n m) ∙ sym (take-nil m)
  take_add (suc n) m (x ∷ xs) =
      ap (λ (k : ℕ). take k (x ∷ xs)) (suc_add n m) ∙ ap (λ (t : List A). x ∷ t) (take_add n m xs)

  -- Page after page shows the rows from the first on, with no gap and none twice.
  pub first_pages_lem :
      (per_page count : ℕ) (xs : List A)
      → first_pages per_page count xs ≡ take (count * per_page) xs
  first_pages_lem per_page zero xs = ap (λ (k : ℕ). take k xs) (sym (none_of per_page))
  first_pages_lem per_page (suc count) xs =
      rw (first_pages_lem per_page count xs, same_page count)
        (sym (take_add (count * per_page) per_page xs)
          ∙ ap (λ (k : ℕ). take k xs) (one_more per_page count))
