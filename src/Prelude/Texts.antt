-- ===== src/Prelude/Texts.antt =====
-- Strings as their UTF-8 bytes, and what the source uses of the standard library on them.
use Prim.Native.Nat.{ℕ, zero, suc, ◌+◌}
use mathlib.Core.Path.{◌≡◌, refl}
use mathlib.Core.Bool.{Bool, true, false, ◌&&◌}
use mathlib.Core.List.{List, [], ◌∷◌, ◌++◌}
use native.Mathlib.Omega.{arith}
use picomq.Prelude.Order.{◌==◌, nat_ord, eq_of_test, compare_refl}
use picomq.Prelude.Lists.{length, take}

-- A Rust `String` or `str` is its UTF-8 bytes, by which it is compared and measured.
abbrev pub Text : Type 0
Text = List ℕ

abbrev pub Bytes : Type 0
Bytes = List ℕ

unfoldable pub starts_with : Text → Text → Bool
starts_with key [] = true
starts_with [] (p ∷ ps) = false
starts_with (k ∷ ks) (p ∷ ps) = k == p && starts_with ks ps

module _ {ℓ} {A : Type ℓ} where
  abbrev pub drop : ℕ → List A → List A
  drop zero xs = xs
  drop (suc n) [] = []
  drop (suc n) (x ∷ xs) = drop n xs

  pub length-append_lists : (xs ys : List A) → length (xs ++ ys) ≡ length xs + length ys
  length-append_lists [] ys = ground arith
  length-append_lists (x ∷ xs) ys = ground (arith, length-append_lists xs ys)

  pub take-append_length : (xs ys : List A) → take (length xs) (xs ++ ys) ≡ xs
  take-append_length [] ys = refl
  take-append_length (x ∷ xs) ys = rw (take-append_length xs ys)

  pub drop-append_length : (xs ys : List A) → drop (length xs) (xs ++ ys) ≡ ys
  drop-append_length [] ys = refl
  drop-append_length (x ∷ xs) ys = drop-append_length xs ys

pub starts_with-append : (p s : Text) → starts_with (p ++ s) p ≡ true
unfolding starts_with
starts_with-append [] s = ground arith
starts_with-append (c ∷ p) s = ground (arith, starts_with-append p s, compare_refl c)

-- A prefix of a prefix is a prefix.
pub starts_with_trans :
    (s p q : Text) → starts_with s p ≡ true → starts_with p q ≡ true → starts_with s q ≡ true
unfolding starts_with
starts_with_trans s p [] h k = ground arith
starts_with_trans s [] (c ∷ q) h k = ground arith
starts_with_trans [] (d ∷ p) (c ∷ q) h k = ground arith
starts_with_trans (b ∷ s) (d ∷ p) (c ∷ q) h k =
    ground (arith, starts_with_trans s p q, eq_of_test b d, eq_of_test d c)
