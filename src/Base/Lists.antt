-- ===== src/Base/Lists.antt =====
-- Lists over the native numbers, and C strings: a `Text` is the bytes before the terminating 0.
use Prim.Native.Nat.{ℕ, suc, ◌+◌}
use mathlib.Core.Path.{◌≡◌, refl}
use mathlib.Core.Logic.{◌↔◌}
use mathlib.Core.Bool.{Bool, true, false, ◌&&◌}
use mathlib.Core.List.{List, [], ◌∷◌, ◌++◌}
use native.Mathlib.Omega.{arith}
use art_hook.Base.Tests.{◌==◌}

module _ {ℓ} {A : Type ℓ} where
  abbrev pub length : List A → ℕ
  length [] = 0
  length (x ∷ xs) = suc (length xs)

  pub length-append : (xs ys : List A) → length (xs ++ ys) ≡ length xs + length ys
  length-append [] ys = omega arith
  length-append (x ∷ xs) ys = omega (arith, length-append xs ys)

abbrev pub Text : Type 0
Text = List ℕ

-- `0 == strcmp(s, t)`.
unfoldable pub strcmp_eq : Text → Text → Bool
strcmp_eq [] [] = true
strcmp_eq [] (c ∷ t) = false
strcmp_eq (c ∷ s) [] = false
strcmp_eq (c ∷ s) (d ∷ t) = (c == d) && strcmp_eq s t

pub strcmp_eq_refl : (s : Text) → strcmp_eq s s ≡ true
unfolding strcmp_eq
strcmp_eq_refl [] = refl
strcmp_eq_refl (c ∷ s) = ground (arith, strcmp_eq_refl s)

pub eq_of_strcmp_eq : (s t : Text) → strcmp_eq s t ≡ true → s ≡ t
unfolding strcmp_eq
eq_of_strcmp_eq [] [] h = refl
eq_of_strcmp_eq [] (c ∷ t) h = ground arith
eq_of_strcmp_eq (c ∷ s) [] h = ground arith
eq_of_strcmp_eq (c ∷ s) (d ∷ t) h = ground (arith, eq_of_strcmp_eq s t)

pub strcmp_eq_iff : (s t : Text) → (strcmp_eq s t ≡ true) ↔ (s ≡ t)
strcmp_eq_iff s t = (eq_of_strcmp_eq s t, λ e. ground (arith, strcmp_eq_refl s))
