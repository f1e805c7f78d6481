-- ===== src/Prelude/Order.antt =====
-- The bound `K: Ord`: the comparison of map keys with its laws, and the tests by it.
use Prim.Native.Nat.{ℕ, compare, Ordering}
use Prim.Native.Nat.Ordering.{lt, eq, gt}
use mathlib.Core.Path.{◌≡◌, refl}
use mathlib.Core.Logic.{◌⊎◌, inl, inr}
use mathlib.Core.Bool.{Bool, true, false}
use mathlib.Core.List.{List, [], ◌∷◌}
use native.Mathlib.Omega.{arith}

pub record Ord {ℓ} (K : Type ℓ) : Type ℓ where
  pub cmp : K → K → Ordering
  pub eq_of_cmp : (i j : K) → cmp i j ≡ eq → i ≡ j
  pub cmp_refl : (i : K) → cmp i i ≡ eq
  pub lt_trans : (i j k : K) → cmp i j ≡ lt → cmp j k ≡ lt → cmp i k ≡ lt
  pub gt_of_lt : (i j : K) → cmp i j ≡ lt → cmp j i ≡ gt
  pub lt_of_gt : (i j : K) → cmp i j ≡ gt → cmp j i ≡ lt

abbrev pub is_eq : Ordering → Bool
is_eq eq = true
is_eq _ = false

abbrev pub is_lt : Ordering → Bool
is_lt lt = true
is_lt _ = false

abbrev pub is_le : Ordering → Bool
is_le gt = false
is_le _ = true

pub Ordering-cases : (c : Ordering) → (c ≡ lt) ⊎ (c ≡ eq) ⊎ (c ≡ gt)
Ordering-cases lt = inl refl
Ordering-cases eq = inr (inl refl)
Ordering-cases gt = inr (inr refl)

infix 50 ◌==◌
abbrev pub ◌==◌ {ℓ} : {K : Type ℓ} ⦃o : Ord K⦄ → K → K → Bool
◌==◌ ⦃o⦄ a b = is_eq (o.cmp a b)

abbrev pub ltb {ℓ} : {K : Type ℓ} ⦃o : Ord K⦄ → K → K → Bool
ltb ⦃o⦄ a b = is_lt (o.cmp a b)

abbrev pub leb {ℓ} : {K : Type ℓ} ⦃o : Ord K⦄ → K → K → Bool
leb ⦃o⦄ a b = is_le (o.cmp a b)

pub eq_of_test {ℓ} : {A : Type ℓ} ⦃o : Ord A⦄ (a b : A) → (a == b) ≡ true → a ≡ b
eq_of_test ⦃o⦄ a b h = ground (arith, o.eq_of_cmp a b)

pub eq_comm {ℓ} : {A : Type ℓ} ⦃o : Ord A⦄ (a b : A) → (a == b) ≡ (b == a)
eq_comm ⦃o⦄ a b = ground (arith, o.eq_of_cmp a b, o.eq_of_cmp b a, o.cmp_refl a, o.cmp_refl b)

pub eq_self {ℓ} : {A : Type ℓ} ⦃o : Ord A⦄ (a : A) → (a == a) ≡ true
eq_self ⦃o⦄ a = ground (arith, o.cmp_refl a)

pub compare_refl : (a : ℕ) → compare a a ≡ eq
compare_refl a = ground arith

pub eq_of_compare : (a b : ℕ) → compare a b ≡ eq → a ≡ b
eq_of_compare a b h = ground arith

pub lt_of_gt-compare : (a b : ℕ) → compare a b ≡ gt → compare b a ≡ lt
lt_of_gt-compare a b h = ground arith

pub gt_of_lt-compare : (a b : ℕ) → compare a b ≡ lt → compare b a ≡ gt
gt_of_lt-compare a b h = ground arith

pub compare-lt_trans : (a b c : ℕ) → compare a b ≡ lt → compare b c ≡ lt → compare a c ≡ lt
compare-lt_trans a b c h k = ground arith

instance abbrev pub nat_ord : Ord ℕ
nat_ord = record {
  cmp = compare;
  cmp_refl = compare_refl;
  eq_of_cmp = eq_of_compare;
  lt_of_gt = lt_of_gt-compare;
  gt_of_lt = gt_of_lt-compare;
  lt_trans = compare-lt_trans;
}

-- The derived order of an enum goes by the rank of its variants.
module _ {ℓ} {A : Type ℓ} (rank : A → ℕ) (eq_of_rank : (a b : A) → rank a ≡ rank b → a ≡ b) where
  pub eq_of_rank_compare : (a b : A) → compare (rank a) (rank b) ≡ eq → a ≡ b
  eq_of_rank_compare a b h = eq_of_rank a b (eq_of_compare (rank a) (rank b) h)

  abbrev pub ord_by_rank : Ord A
  ord_by_rank = record {
    cmp = λ a b. compare (rank a) (rank b);
    cmp_refl = λ a. compare_refl (rank a);
    eq_of_cmp = eq_of_rank_compare;
    lt_of_gt = λ a b. lt_of_gt-compare (rank a) (rank b);
    gt_of_lt = λ a b. gt_of_lt-compare (rank a) (rank b);
    lt_trans = λ a b c. compare-lt_trans (rank a) (rank b) (rank c);
  }

-- The second comparison counts where the first finds no difference.
abbrev pub and_then : Ordering → Ordering → Ordering
and_then eq second = second
and_then first _ = first

-- Pairs compare lexicographically.
module _ {ℓ} {A B : Type ℓ} ⦃o : Ord A⦄ ⦃p : Ord B⦄ where
  abbrev pub lex : A × B → A × B → Ordering
  lex x y = and_then (o.cmp x.0 y.0) (p.cmp x.1 y.1)

  pub lex_refl : (x : A × B) → lex x x ≡ eq
  lex_refl x = simp (o.cmp_refl, p.cmp_refl)

  pub eq_of_lex : (x y : A × B) → lex x y ≡ eq → x ≡ y
  eq_of_lex x y h = ground (arith, o.eq_of_cmp x.0 y.0, p.eq_of_cmp x.1 y.1)

  pub lt_of_gt-lex : (x y : A × B) → lex x y ≡ gt → lex y x ≡ lt
  lt_of_gt-lex x y h =
      ground (arith, o.eq_of_cmp x.0 y.0, o.cmp_refl x.0, o.lt_of_gt x.0 y.0, p.lt_of_gt x.1 y.1)

  pub gt_of_lt-lex : (x y : A × B) → lex x y ≡ lt → lex y x ≡ gt
  gt_of_lt-lex x y h =
      ground (arith, o.eq_of_cmp x.0 y.0, o.cmp_refl x.0, o.gt_of_lt x.0 y.0, p.gt_of_lt x.1 y.1)

  pub lex-lt_trans : (x y z : A × B) → lex x y ≡ lt → lex y z ≡ lt → lex x z ≡ lt
  lex-lt_trans x y z h k = ground (
    arith,
    o.eq_of_cmp x.0 y.0,
    o.eq_of_cmp y.0 z.0,
    o.lt_trans x.0 y.0 z.0,
    p.lt_trans x.1 y.1 z.1,
  )

  instance abbrev pub pair_ord : Ord (A × B)
  pair_ord = record {
    cmp = lex;
    cmp_refl = lex_refl;
    eq_of_cmp = eq_of_lex;
    lt_of_gt = lt_of_gt-lex;
    gt_of_lt = gt_of_lt-lex;
    lt_trans = lex-lt_trans;
  }

-- Byte strings compare lexicographically.
abbrev pub compare_bytes : List ℕ → List ℕ → Ordering
compare_bytes [] [] = eq
compare_bytes [] (y ∷ ys) = lt
compare_bytes (x ∷ xs) [] = gt
compare_bytes (x ∷ xs) (y ∷ ys) = and_then (compare x y) (compare_bytes xs ys)

pub compare_bytes_refl : (a : List ℕ) → compare_bytes a a ≡ eq
compare_bytes_refl [] = ground arith
compare_bytes_refl (x ∷ xs) = ground (arith, compare_bytes_refl xs)

pub eq_of_compare_bytes : (a b : List ℕ) → compare_bytes a b ≡ eq → a ≡ b
eq_of_compare_bytes [] [] h = ground arith
eq_of_compare_bytes [] (y ∷ ys) h = ground arith
eq_of_compare_bytes (x ∷ xs) [] h = ground arith
eq_of_compare_bytes (x ∷ xs) (y ∷ ys) h = ground (arith, eq_of_compare_bytes xs ys)

pub lt_of_gt-compare_bytes : (a b : List ℕ) → compare_bytes a b ≡ gt → compare_bytes b a ≡ lt
lt_of_gt-compare_bytes [] [] h = ground arith
lt_of_gt-compare_bytes [] (y ∷ ys) h = ground arith
lt_of_gt-compare_bytes (x ∷ xs) [] h = ground arith
lt_of_gt-compare_bytes (x ∷ xs) (y ∷ ys) h = ground (arith, lt_of_gt-compare_bytes xs ys)

pub gt_of_lt-compare_bytes : (a b : List ℕ) → compare_bytes a b ≡ lt → compare_bytes b a ≡ gt
gt_of_lt-compare_bytes [] [] h = ground arith
gt_of_lt-compare_bytes [] (y ∷ ys) h = ground arith
gt_of_lt-compare_bytes (x ∷ xs) [] h = ground arith
gt_of_lt-compare_bytes (x ∷ xs) (y ∷ ys) h = ground (arith, gt_of_lt-compare_bytes xs ys)

pub compare_bytes-lt_trans :
    (a b c : List ℕ) → compare_bytes a b ≡ lt → compare_bytes b c ≡ lt → compare_bytes a c ≡ lt
compare_bytes-lt_trans [] b [] h k = ground arith
compare_bytes-lt_trans [] b (z ∷ zs) h k = ground arith
compare_bytes-lt_trans (x ∷ xs) [] c h k = ground arith
compare_bytes-lt_trans (x ∷ xs) (y ∷ ys) [] h k = ground arith
compare_bytes-lt_trans (x ∷ xs) (y ∷ ys) (z ∷ zs) h k =
    ground (arith, compare_bytes-lt_trans xs ys zs)

instance abbrev pub bytes_ord : Ord (List ℕ)
bytes_ord = record {
  cmp = compare_bytes;
  cmp_refl = compare_bytes_refl;
  eq_of_cmp = eq_of_compare_bytes;
  lt_of_gt = lt_of_gt-compare_bytes;
  gt_of_lt = gt_of_lt-compare_bytes;
  lt_trans = compare_bytes-lt_trans;
}
