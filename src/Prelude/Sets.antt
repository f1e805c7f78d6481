-- ===== src/Prelude/Sets.antt =====
-- `BTreeSet`: the list of its elements in ascending order.
use mathlib.Core.Path.{◌≡◌, refl, sym}
use mathlib.Core.Bool.{true}
use mathlib.Core.List.{List, [], ◌∷◌, ◌++◌, append_assoc, append-nil}
use native.Mathlib.Omega.{arith}
use picomq.Prelude.Tests.{if◌then◌else◌}
use picomq.Prelude.Order.{Ord, ◌==◌, ltb}
use picomq.Prelude.Lists.{for_each, All}

module _ {ℓ} {A : Type ℓ} ⦃o : Ord A⦄ where
  unfoldable pub insert_sorted : List A → A → List A
  insert_sorted [] a = a ∷ []
  insert_sorted (x ∷ xs) a =
      let rest = insert_sorted xs a in
      if a == x then x ∷ xs else if ltb a x then a ∷ x ∷ xs else x ∷ rest

  -- A set that a loop fills.
  unfoldable pub set_from : List A → List A
  unfolding insert_sorted
  set_from xs = for_each insert_sorted [] xs

  abbrev pub IsAscending : List A → Type ℓ
  IsAscending [] = Unit
  IsAscending (x ∷ xs) = All (λ (y : A). ltb x y ≡ true) xs × IsAscending xs

  insert_sorted-last :
      (xs : List A) (a : A)
      → All (λ (x : A). ltb x a ≡ true) xs
      → insert_sorted xs a ≡ xs ++ (a ∷ [])
  unfolding insert_sorted
  insert_sorted-last [] a h = refl
  insert_sorted-last (x ∷ xs) a (h, hs) = ground (arith, insert_sorted-last xs a hs, o.gt_of_lt x a)

  -- What stands before an element of an ascending list is below it.
  All-below :
      (xs : List A) (a : A) (ys : List A)
      → IsAscending (xs ++ (a ∷ ys))
      → All (λ (x : A). ltb x a ≡ true) xs
  All-below [] a ys h = tt
  All-below (x ∷ xs) a ys (h, hs) = (head_of xs h, All-below xs a ys hs)
    where
      head_of : (zs : List A) → All (λ (y : A). ltb x y ≡ true) (zs ++ (a ∷ ys)) → ltb x a ≡ true
      head_of [] k = k.0
      head_of (z ∷ zs) k = head_of zs k.1

  for_each-insert_sorted :
      (done xs : List A) → IsAscending (done ++ xs) → for_each insert_sorted done xs ≡ done ++ xs
  for_each-insert_sorted done [] h = sym (append-nil done)
  for_each-insert_sorted done (x ∷ xs) h =
      let one : (done ++ (x ∷ [])) ++ xs ≡ done ++ (x ∷ xs) = append_assoc done (x ∷ []) xs in
      rw (insert_sorted-last done x (All-below done x xs h))
        (rw one at (for_each-insert_sorted (done ++ (x ∷ [])) xs (rw one h)))

  -- A set is filled again from its elements in order.
  pub set_from-ascending : (xs : List A) → IsAscending xs → set_from xs ≡ xs
  unfolding set_from
  set_from-ascending xs h = for_each-insert_sorted [] xs h
