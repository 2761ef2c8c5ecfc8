-- ===== src/Common/Table/Counts.antt =====
-- How many rows the statements of Common/Table find, delete and append.
use Prim.Native.Nat.{◌+◌, ◌≤◌, ◌<◌}
use mathlib.Core.Path.{◌≡◌, refl}
use mathlib.Core.Bool.{Bool, true, false}
use mathlib.Core.Option.{none, some}
use mathlib.Core.List.{List, [], ◌∷◌, ◌++◌}
use native.Mathlib.Omega.{arith}
use tessera_server.Common.Lists.{length, drop}
use tessera_server.Common.Table.{fetch_one, delete_where, count_where}

module _ {ℓ} {A : Type ℓ} (p : A → Bool) where
  pub length-delete : (xs : List A) → length (delete_where p xs) + count_where p xs ≡ length xs
  length-delete [] = refl
  length-delete (x ∷ xs) = ground (arith, length-delete xs)

  pub fetch_one-counted : (xs : List A) (x : A) → fetch_one p xs ≡ some x → 0 < count_where p xs
  fetch_one-counted [] x h = ground arith
  fetch_one-counted (y ∷ xs) x h = ground (arith, fetch_one-counted xs x)

  pub fetch_one-uncounted : (xs : List A) → fetch_one p xs ≡ none → count_where p xs ≡ 0
  fetch_one-uncounted [] h = refl
  fetch_one-uncounted (y ∷ xs) h = ground (arith, fetch_one-uncounted xs)

  pub uncounted-fetch_one : (xs : List A) → count_where p xs ≡ 0 → fetch_one p xs ≡ none
  uncounted-fetch_one [] h = refl
  uncounted-fetch_one (y ∷ xs) h = ground (arith, uncounted-fetch_one xs)

  pub count_where-delete : (xs : List A) → count_where p (delete_where p xs) ≡ 0
  count_where-delete [] = refl
  count_where-delete (x ∷ xs) = ground (arith, count_where-delete xs)

  pub count_where-append :
      (xs ys : List A) → count_where p (xs ++ ys) ≡ count_where p xs + count_where p ys
  count_where-append [] ys = omega arith
  count_where-append (x ∷ xs) ys = omega (arith, count_where-append xs ys)

  pub fetch_one-append :
      (xs : List A) (y : A) → p y ≡ false → fetch_one p (xs ++ y ∷ []) ≡ fetch_one p xs
  fetch_one-append [] y h = ground arith
  fetch_one-append (x ∷ xs) y h = ground (arith, fetch_one-append xs y)

  pub count_where-drop : (xs : List A) → count_where p (drop 1 xs) ≤ count_where p xs
  count_where-drop [] = omega arith
  count_where-drop (x ∷ xs) = omega arith

module _ {ℓ} {A : Type ℓ} (p q : A → Bool) where
  pub fetch_one-delete_ne :
      ((x : A) → p x ≡ true → q x ≡ false)
      → (xs : List A) → fetch_one q (delete_where p xs) ≡ fetch_one q xs
  fetch_one-delete_ne h [] = refl
  fetch_one-delete_ne h (x ∷ xs) = ground (arith, h x, fetch_one-delete_ne h xs)
