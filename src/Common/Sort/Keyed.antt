-- ===== src/Common/Sort/Keyed.antt =====
-- Tables with one row for each key, under UPDATE and INSERT.
use Prim.Native.Nat.{ℕ, ◌≤◌, ◌<◌}
use mathlib.Core.Path.{◌≡◌, sym, ◌∙◌}
use mathlib.Core.Logic.{◌≢◌, inl, inr}
use mathlib.Core.Bool.{Bool}
use mathlib.Core.List.{List, [], ◌∷◌, ◌++◌}
use native.Mathlib.Omega.{arith}
use tessera_server.Common.Lists.{All}
use tessera_server.Common.Tests.{Bool-cases}
use tessera_server.Common.Table.{update_where}
use tessera_server.Common.Table.Laws.{All-update}
use tessera_server.Common.Sort.{IsKeyedBy}

pub All-append {ℓ κ} :
    {A : Type ℓ} (P : A → Type κ) (xs : List A) (x : A) → All P xs → P x → All P (xs ++ x ∷ [])
All-append P [] x h p = (p, tt)
All-append P (y ∷ xs) x h p = (h.0, All-append P xs x h.1 p)

module _ {ℓ} {A : Type ℓ} (key : A → ℕ) where
  pub update-IsKeyedBy :
      (p : A → Bool) (f : A → A)
      → ((x : A) → key (f x) ≡ key x)
      → (xs : List A) → IsKeyedBy key xs
      → IsKeyedBy key (update_where p f xs)
  update-IsKeyedBy p f same [] h = tt
  update-IsKeyedBy p f same (x ∷ xs) h = elim (Bool-cases (p x)) [
    | inl e ↦ rw e (
      All-update (λ y. key x ≢ key y) (λ y. key (f x) ≢ key y) p f
          (λ y e' ne q. ne (sym (same x) ∙ (q ∙ same y))) (λ y e' ne q. ne (sym (same x) ∙ q)) xs
          h.0,
      update-IsKeyedBy p f same xs h.1,
    )
    | inr e ↦ rw e (
      All-update (λ y. key x ≢ key y) (λ y. key x ≢ key y) p f (λ y e' ne q. ne (q ∙ same y))
          (λ y e' ne q. ne q) xs h.0,
      update-IsKeyedBy p f same xs h.1,
    )
  ]

  -- A row with a key above all others.
  pub append-IsKeyedBy :
      (last : ℕ) (xs : List A) (x : A)
      → All (λ y. key y ≤ last) xs
      → last < key x
      → IsKeyedBy key xs
      → IsKeyedBy key (xs ++ x ∷ [])
  append-IsKeyedBy last [] x below above h = (tt, tt)
  append-IsKeyedBy last (y ∷ xs) x below above h = (
    All-append (λ z. key y ≢ key z) xs x h.0 (λ q. apart (key y) (key x) last below.0 above q),
    append-IsKeyedBy last xs x below.1 above h.1,
  )
    where
      apart : (a b c : ℕ) → a ≤ c → c < b → a ≢ b
      apart a b c h k q = omega arith
