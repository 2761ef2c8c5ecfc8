-- ===== src/Common/Text/Laws.antt =====
-- What cutting and stripping keep of a text.
use Prim.Native.Nat.{ℕ, zero, suc, ◌≤◌, ◌<◌}
use Prim.Native.Char.{Char, code}
use Prim.Native.String.{String, [], ◌∷◌}
use mathlib.Core.Path.{◌≡◌, refl}
use mathlib.Core.Logic.{◌≢◌, inl, inr}
use mathlib.Core.Bool.{Bool, true, false, not}
use native.Mathlib.Omega.{arith}
use tessera_server.Common.Tests.{Bool-cases}
use tessera_server.Common.Text.{length, take, all, any, is_space, lstrip, close, rstrip, strip}

module _ (p : ℕ → Bool) where
  pub any-take : (n : ℕ) (s : String) → any p s ≡ false → any p (take n s) ≡ false
  any-take zero s h = refl
  any-take (suc n) [] h = refl
  any-take (suc n) (c ∷ s) h = ground (arith, any-take n s)

  any-lstrip : (s : String) → any p s ≡ false → any p (lstrip s) ≡ false
  unfolding lstrip
  any-lstrip [] h = refl
  any-lstrip (c ∷ s) h = ground (arith, any-lstrip s)

  any-close :
      (c : Char) (s : String) → p (code c) ≡ false → any p s ≡ false → any p (close c s) ≡ false
  unfolding close
  any-close c [] a h = elim (Bool-cases (is_space (code c))) [
    | inl e ↦ rw (e, close)
    | inr e ↦ rw (e, close) (ground arith)
  ]
  any-close c (d ∷ t) a h = ground arith

  any-rstrip : (s : String) → any p s ≡ false → any p (rstrip s) ≡ false
  unfolding rstrip
  any-rstrip [] h = refl
  any-rstrip (c ∷ s) h = any-close c (rstrip s) (ground arith) (any-rstrip s (ground arith))

  -- Stripping brings in no character.
  pub any-strip : (s : String) → any p s ≡ false → any p (strip s) ≡ false
  unfolding strip
  any-strip s h = any-rstrip (lstrip s) (any-lstrip s h)

pub length-take-le : (n : ℕ) (s : String) → length (take n s) ≤ n
length-take-le zero s = omega arith
length-take-le (suc n) [] = omega arith
length-take-le (suc n) (c ∷ s) = omega (arith, length-take-le n s)

pub length-take-pos : (n : ℕ) (s : String) → 0 < n → s ≢ [] → 0 < length (take n s)
length-take-pos zero s h ne = absurd (omega arith)
length-take-pos (suc n) [] h ne = absurd (ne refl)
length-take-pos (suc n) (c ∷ s) h ne = omega arith

-- A text without spaces is what stripping leaves of it.
lstrip_lem : (s : String) → all (λ c. not (is_space c)) s ≡ true → lstrip s ≡ s
unfolding lstrip
lstrip_lem [] h = refl
lstrip_lem (c ∷ s) h = ground arith

rstrip_lem : (s : String) → all (λ c. not (is_space c)) s ≡ true → rstrip s ≡ s
unfolding rstrip close
rstrip_lem [] h = refl
rstrip_lem (c ∷ []) h = ground arith
rstrip_lem (c ∷ d ∷ s) h = rw (rstrip_lem (d ∷ s) (ground arith), rstrip) refl

pub strip_lem : (s : String) → all (λ c. not (is_space c)) s ≡ true → strip s ≡ s
unfolding strip
strip_lem s h = rw (lstrip_lem s h) (rstrip_lem s h)
