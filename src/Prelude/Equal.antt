-- ===== src/Prelude/Equal.antt =====
-- The derived `PartialEq` of structs: tests that hold of equal values only.
use mathlib.Core.Path.{◌≡◌, refl, ap}
use mathlib.Core.Bool.{Bool, true, false, ◌&&◌}
use mathlib.Core.Option.{Option, none, some}
use mathlib.Core.List.{List, [], ◌∷◌}
use native.Mathlib.Omega.{arith}

module _ {ℓ} {A : Type ℓ} (same : A → A → Bool) where
  unfoldable pub same_list : List A → List A → Bool
  same_list [] [] = true
  same_list [] (y ∷ ys) = false
  same_list (x ∷ xs) [] = false
  same_list (x ∷ xs) (y ∷ ys) = same x y && same_list xs ys

  unfoldable pub same_option : Option A → Option A → Bool
  same_option none none = true
  same_option none (some y) = false
  same_option (some x) none = false
  same_option (some x) (some y) = same x y

  module _ (sound : (x y : A) → same x y ≡ true → x ≡ y) where
    pub eq_of_same_list : (xs ys : List A) → same_list xs ys ≡ true → xs ≡ ys
    unfolding same_list
    eq_of_same_list [] [] h = refl
    eq_of_same_list [] (y ∷ ys) h = cc
    eq_of_same_list (x ∷ xs) [] h = cc
    eq_of_same_list (x ∷ xs) (y ∷ ys) h = ground (arith, sound x y, eq_of_same_list xs ys)

    pub eq_of_same_option : (x y : Option A) → same_option x y ≡ true → x ≡ y
    unfolding same_option
    eq_of_same_option none none h = refl
    eq_of_same_option none (some y) h = cc
    eq_of_same_option (some x) none h = cc
    eq_of_same_option (some x) (some y) h = ap some (sound x y h)
