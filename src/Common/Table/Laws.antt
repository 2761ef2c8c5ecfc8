-- ===== src/Common/Table/Laws.antt =====
-- What the statements of Common/Table leave alone.
use Prim.Native.Nat.{◌≤◌}
use mathlib.Core.Path.{◌≡◌, refl, subst}
use mathlib.Core.Logic.{inl, inr}
use mathlib.Core.Bool.{Bool, true, false}
use mathlib.Core.Option.{Option, none, some}
use mathlib.Core.List.{List, [], ◌∷◌}
use native.Mathlib.Omega.{arith}
use tessera_server.Common.Lists.{All}
use tessera_server.Common.Tests.{if◌then◌else◌, Bool-cases}
use tessera_server.Common.Table.{
  select, delete_where, count_where, update_where, fetch_one, exists_where, upsert,
}

none-ne-some {ℓ} : {A : Type ℓ} (x : A) → ◌≡◌ {A = Option A} none (some x) → ⊥
none-ne-some x h = cc

module _ {ℓ} {A : Type ℓ} (p q : A → Bool) where
  -- A count sees nothing of a write to rows that it does not select.
  pub count_where-upsert_ne :
      (new : A) (f : A → A)
      → q new ≡ false
      → ((x : A) → p x ≡ true → q x ≡ false)
      → ((x : A) → p x ≡ true → q (f x) ≡ false)
      → (rows : List A) → count_where q (upsert p new f rows) ≡ count_where q rows
  count_where-upsert_ne new f a b c [] = ground arith
  count_where-upsert_ne new f a b c (x ∷ rows) =
      ground (arith, b x, c x, count_where-upsert_ne new f a b c rows)

  pub count_where-delete_ne :
      ((x : A) → p x ≡ true → q x ≡ false)
      → (rows : List A) → count_where q (delete_where p rows) ≡ count_where q rows
  count_where-delete_ne b [] = refl
  count_where-delete_ne b (x ∷ rows) = ground (arith, b x, count_where-delete_ne b rows)

  pub count_where-delete-le :
      (rows : List A) → count_where q (delete_where p rows) ≤ count_where q rows
  count_where-delete-le [] = omega arith
  count_where-delete-le (x ∷ rows) = ground (arith, count_where-delete-le rows)

  -- A write that keeps what a count selects changes the count by nothing.
  pub count_where-update :
      (f : A → A)
      → ((x : A) → p x ≡ true → q (f x) ≡ q x)
      → (rows : List A) → count_where q (update_where p f rows) ≡ count_where q rows
  count_where-update f b [] = refl
  count_where-update f b (x ∷ rows) = ground (arith, b x, count_where-update f b rows)

module _ {ℓ} {A : Type ℓ} (p : A → Bool) where
  -- An upsert by a key that the written row has leaves at most one such row, if it found so many.
  pub count_where-upsert_self :
      (new : A) (f : A → A)
      → p new ≡ true
      → ((x : A) → p x ≡ true → p (f x) ≡ true)
      → (rows : List A) → count_where p rows ≤ 1
      → count_where p (upsert p new f rows) ≡ 1
  count_where-upsert_self new f a b [] h = ground arith
  count_where-upsert_self new f a b (x ∷ rows) h =
      ground (arith, b x, count_where-upsert_self new f a b rows)

  pub fetch_one-delete : (rows : List A) → fetch_one p (delete_where p rows) ≡ none
  fetch_one-delete [] = refl
  fetch_one-delete (x ∷ rows) = ground (arith, fetch_one-delete rows)

  pub fetch_one-exists :
      (rows : List A) (x : A) → fetch_one p rows ≡ some x → exists_where p rows ≡ true
  fetch_one-exists [] x h = ground arith
  fetch_one-exists (y ∷ rows) x h = ground (arith, fetch_one-exists rows x)

  -- What is fetched has been selected.
  pub fetch_one-holds : (rows : List A) (x : A) → fetch_one p rows ≡ some x → p x ≡ true
  fetch_one-holds [] x h = ground arith
  fetch_one-holds (y ∷ rows) x h = ground (arith, fetch_one-holds rows x)

  -- A row with a property that all rows have.
  pub fetch_one-All {κ} :
      (P : A → Type κ) (rows : List A) (x : A) → All P rows → fetch_one p rows ≡ some x → P x
  fetch_one-All P [] x a h = absurd (none-ne-some x h)
  fetch_one-All P (y ∷ rows) x a h = elim (Bool-cases (p y)) [
    | inl e ↦ subst P (ground arith) a.0
    | inr e ↦ fetch_one-All P rows x a.1 (ground arith)
  ]

pub All-select {ℓ κ} :
    {A : Type ℓ} (P : A → Type κ) (q : A → Bool) (xs : List A) → All P xs → All P (select q xs)
All-select P q [] h = tt
All-select P q (x ∷ xs) h = elim (Bool-cases (q x)) [
  | inl e ↦ rw e (h.0, All-select P q xs h.1)
  | inr e ↦ rw e (All-select P q xs h.1)
]

module _ {ℓ κ} {A : Type ℓ} (P Q : A → Type κ) (p : A → Bool) (f : A → A) where
  -- A property of every row after an UPDATE, from one of every row before it.
  pub All-update :
      ((x : A) → p x ≡ true → P x → Q (f x))
      → ((x : A) → p x ≡ false → P x → Q x)
      → (rows : List A) → All P rows
      → All Q (update_where p f rows)
  All-update a b [] h = tt
  All-update a b (x ∷ rows) h = (
    elim (Bool-cases (p x)) [ inl e ↦ rw e (a x e h.0) | inr e ↦ rw e (b x e h.0) ],
    All-update a b rows h.1,
  )

module _ {ℓ κ} {A : Type ℓ} (P : A → Type κ) (p : A → Bool) where
  pub All-upsert :
      (new : A) (f : A → A)
      → P new
      → ((x : A) → P x → P (f x))
      → (rows : List A) → All P rows
      → All P (upsert p new f rows)
  All-upsert new f a b [] h = (a, tt)
  All-upsert new f a b (x ∷ rows) h = elim (Bool-cases (p x)) [
    | inl e ↦ rw e (b x h.0, h.1)
    | inr e ↦ rw e (h.0, All-upsert new f a b rows h.1)
  ]

  pub All-delete : (rows : List A) → All P rows → All P (delete_where p rows)
  All-delete [] h = tt
  All-delete (x ∷ rows) h = elim (Bool-cases (p x)) [
    | inl e ↦ rw e (All-delete rows h.1)
    | inr e ↦ rw e (h.0, All-delete rows h.1)
  ]

module _ {ℓ κ} {A : Type ℓ} (P Q : A → Type κ) where
  pub All-map : ((x : A) → P x → Q x) → (rows : List A) → All P rows → All Q rows
  All-map a [] h = tt
  All-map a (x ∷ rows) h = (a x h.0, All-map a rows h.1)

module _ {ℓ} {A : Type ℓ} (p q : A → Bool) where
  -- A weaker search finds something too.
  pub fetch_one_weaken :
      ((x : A) → p x ≡ true → q x ≡ true)
      → (rows : List A) (x : A) → fetch_one p rows ≡ some x
      → (y : A) × (fetch_one q rows ≡ some y)
  fetch_one_weaken h [] x e = absurd (none-ne-some x e)
  fetch_one_weaken h (r ∷ rows) x e = elim (Bool-cases (q r)) [
    | inl yes_q ↦ (r, ground arith)
    | inr no_q ↦
        let (y, found) = fetch_one_weaken h rows x (ground (arith, h r)) in (y, ground arith)
  ]

  -- What an UPDATE does to the row that a search finds, when it keeps what the search reads.
  pub fetch_one-update :
      (f : A → A)
      → ((x : A) → q (f x) ≡ q x)
      → (rows : List A) (x : A) → fetch_one q rows ≡ some x
      → fetch_one q (update_where p f rows) ≡ some (if p x then f x else x)
  fetch_one-update f h [] x e = absurd (none-ne-some x e)
  fetch_one-update f h (r ∷ rows) x e = elim (Bool-cases (q r)) [
    | inl found ↦ ground (arith, h r)
    | inr other ↦ ground (arith, h r, fetch_one-update f h rows x)
  ]

module _ {ℓ} {A : Type ℓ} (p : A → Bool) where
  -- An upsert leaves a row of the kind that it looks for.
  pub exists_where-upsert :
      (new : A) (f : A → A)
      → p new ≡ true
      → ((x : A) → p x ≡ true → p (f x) ≡ true)
      → (rows : List A) → exists_where p (upsert p new f rows) ≡ true
  exists_where-upsert new f a b [] = ground arith
  exists_where-upsert new f a b (x ∷ rows) = ground (arith, b x, exists_where-upsert new f a b rows)

  -- An UPDATE that ends the reason why it selects a row leaves none to select.
  pub select-update_none :
      (f : A → A)
      → ((x : A) → p x ≡ true → p (f x) ≡ false)
      → (rows : List A) → select p (update_where p f rows) ≡ []
  select-update_none f b [] = refl
  select-update_none f b (x ∷ rows) = ground (arith, b x, select-update_none f b rows)

module _ {ℓ} {A : Type ℓ} (p q : A → Bool) (f : A → A) where
  -- No row of a kind that every updated row leaves and no other row has.
  pub exists_where-update_none :
      ((x : A) → p x ≡ true → q (f x) ≡ false)
      → ((x : A) → p x ≡ false → q x ≡ false)
      → (rows : List A) → exists_where q (update_where p f rows) ≡ false
  exists_where-update_none a b [] = refl
  exists_where-update_none a b (x ∷ rows) =
      ground (arith, a x, b x, exists_where-update_none a b rows)

  -- An UPDATE that makes no row one of a kind makes none where there was none.
  pub exists_where-update_keeps :
      ((x : A) → p x ≡ true → q x ≡ false → q (f x) ≡ false)
      → (rows : List A) → exists_where q rows ≡ false
      → exists_where q (update_where p f rows) ≡ false
  exists_where-update_keeps a [] h = refl
  exists_where-update_keeps a (x ∷ rows) h = ground (arith, a x, exists_where-update_keeps a rows)
