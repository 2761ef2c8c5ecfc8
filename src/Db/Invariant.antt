-- ===== src/Db/Invariant.antt =====
-- Tables whose primary key is a model and a console's key (votes, favourites, reports).
use tessera_server.Common.{
  ℕ, ◌≤◌, String, ◌≡◌, Bool, true, false, ◌&&◌, List, arith, ◌==◌, str_eq, eq_iff, Bool-cases, inl,
  inr,
}
use tessera_server.Common.Table.{count_where, delete_where, upsert}
use tessera_server.Common.Table.Laws.{
  count_where-upsert_ne, count_where-delete-le, count_where-upsert_self,
}

module _ {A : Type 0} (model_id : A → ℕ) (owner : A → String) where
  abbrev pub has_key : ℕ → String → A → Bool
  has_key id key x = model_id x == id && str_eq (owner x) key

  -- No two rows share a key.
  abbrev pub IsKeyed : List A → Type 0
  IsKeyed rows = (id : ℕ) (key : String) → count_where (has_key id key) rows ≤ 1

  pub delete-IsKeyed : (p : A → Bool) (rows : List A) → IsKeyed rows → IsKeyed (delete_where p rows)
  delete-IsKeyed p rows h id key =
      omega (arith, count_where-delete-le p (has_key id key) rows, h id key)

  same_key : (i id : ℕ) (k key : String) → (i == id && str_eq k key) ≡ true → (i ≡ id) × (k ≡ key)
  same_key i id k key h = ground (arith, eq_iff k key)

  other_key :
      (i id : ℕ) (k key : String) (x : A)
      → (i == id && str_eq k key) ≡ false
      → has_key id key x ≡ true
      → has_key i k x ≡ false
  other_key i id k key x h e =
      ground (arith, eq_iff k key, eq_iff (owner x) k, eq_iff (owner x) key)

  has_own_key :
      (id : ℕ) (key : String) (x : A) → model_id x ≡ id → owner x ≡ key → has_key id key x ≡ true
  has_own_key id key x a b = ground (arith, eq_iff (owner x) key)

  pub upsert-IsKeyed :
      (id : ℕ) (key : String) (new : A) (f : A → A)
      → model_id new ≡ id
      → owner new ≡ key
      → ((x : A) → model_id (f x) ≡ model_id x)
      → ((x : A) → owner (f x) ≡ owner x)
      → (rows : List A) → IsKeyed rows
      → IsKeyed (upsert (has_key id key) new f rows)
  upsert-IsKeyed id key new f a b c d rows h i k = elim (Bool-cases (i == id && str_eq k key)) [
    | inl same ↦
        let (same_id, same_owner) = same_key i id k key same in
        rw (same_id, same_owner)
          (omega (
            arith,
            count_where-upsert_self (has_key id key) new f (has_own_key id key new a b)
                (λ x e. rw (c x, d x) e) rows (h id key),
          ))
    | inr differ ↦
        rw
          (count_where-upsert_ne (has_key id key) (has_key i k) new f
            (other_key i id k key new differ (has_own_key id key new a b))
            (λ x e. other_key i id k key x differ e)
            (λ x e. rw (c x, d x) (other_key i id k key x differ e)) rows)
          (h i k)
  ]
