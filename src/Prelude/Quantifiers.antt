-- ===== src/Prelude/Quantifiers.antt =====
-- The loops `any`, `all` and `contains` of iterators, as quantifiers.
use mathlib.Core.Path.{◌≡◌, refl}
use mathlib.Core.Bool.{Bool, true}
use mathlib.Core.List.{List, [], ◌∷◌}
use mathlib.Core.Logic.{inl, inr}
use native.Mathlib.Omega.{arith}
use picomq.Prelude.Tests.{Bool-cases}
use picomq.Prelude.Order.{Ord, eq_of_test}
use picomq.Prelude.Lists.{any, all_of, contains, map}

module _ {ℓ} {A : Type ℓ} where
  pub any-cons : (p : A → Bool) (x : A) (xs : List A) → p x ≡ true → any p (x ∷ xs) ≡ true
  any-cons p x xs h = rw h refl

  pub any_mono :
      (p q : A → Bool) (xs : List A)
      → ((x : A) → p x ≡ true → q x ≡ true)
      → any p xs ≡ true
      → any q xs ≡ true
  any_mono p q [] k h = cc
  any_mono p q (x ∷ xs) k h = ground (arith, k x, any_mono p q xs k)

  pub any_ext : (p q : A → Bool) (xs : List A) → ((x : A) → p x ≡ q x) → any p xs ≡ any q xs
  any_ext p q [] k = refl
  any_ext p q (x ∷ xs) k = rw (k x, any_ext p q xs k) refl

  -- An element that passes both tests.
  pub any-all_of :
      (p q : A → Bool) (xs : List A)
      → all_of p xs ≡ true
      → any q xs ≡ true
      → (x : A) × (p x ≡ true) × (q x ≡ true)
  any-all_of p q [] h k = cc
  any-all_of p q (x ∷ xs) h k = elim (Bool-cases (q x)) [
    | inl e ↦ (x, ground arith, e)
    | inr e ↦ any-all_of p q xs (ground arith) (ground arith)
  ]

  pub all_of-contains :
      ⦃o : Ord A⦄ (p : A → Bool) (a : A) (xs : List A)
      → all_of p xs ≡ true
      → contains a xs ≡ true
      → p a ≡ true
  all_of-contains p a [] h k = cc
  all_of-contains p a (x ∷ xs) h k = ground (arith, eq_of_test a x, all_of-contains p a xs)

  pub any-contains :
      ⦃o : Ord A⦄ (p : A → Bool) (a : A) (xs : List A)
      → p a ≡ true
      → contains a xs ≡ true
      → any p xs ≡ true
  any-contains p a [] h k = cc
  any-contains p a (x ∷ xs) h k = ground (arith, eq_of_test a x, any-contains p a xs)

module _ {ℓ κ} {A : Type ℓ} {B : Type κ} where
  pub any-map : (p : B → Bool) (f : A → B) (xs : List A) → any p (map f xs) ≡ any (λ x. p (f x)) xs
  any-map p f [] = refl
  any-map p f (x ∷ xs) = rw (any-map p f xs) refl
