-- ===== src/Prelude/Int.antt =====
-- Signed integers over the native numbers, under the library's names (its ℤ stands on the unary
-- ℕ), with the casts and the wrap-around of the machine types `i32`, `i64` and `u64`.
use Prim.Native.Nat.{ℕ, compare, Ordering, ◌+◌, ◌-◌, ◌%◌, ◌<◌}
use Prim.Native.Nat.Ordering.{lt, eq, gt}
use mathlib.Core.Path.{◌≡◌}
use native.Mathlib.Omega.{arith}
use picomq.Prelude.Tests.{if◌then◌else◌}
use picomq.Prelude.Order.{Ord, ltb, nat_ord}

-- `negsuc n` is -(n + 1).
pub data ℤ : Type 0 where
  pos : ℕ → ℤ
  negsuc : ℕ → ℤ

abbrev pub compare_ℤ : ℤ → ℤ → Ordering
compare_ℤ (pos m) (pos n) = compare m n
compare_ℤ (pos m) (negsuc n) = gt
compare_ℤ (negsuc m) (pos n) = lt
compare_ℤ (negsuc m) (negsuc n) = compare n m

pub compare_ℤ_refl : (a : ℤ) → compare_ℤ a a ≡ eq
compare_ℤ_refl a = ground arith

pub eq_of_compare_ℤ : (a b : ℤ) → compare_ℤ a b ≡ eq → a ≡ b
eq_of_compare_ℤ a b h = ground arith

pub lt_of_gt-compare_ℤ : (a b : ℤ) → compare_ℤ a b ≡ gt → compare_ℤ b a ≡ lt
lt_of_gt-compare_ℤ a b h = ground arith

pub gt_of_lt-compare_ℤ : (a b : ℤ) → compare_ℤ a b ≡ lt → compare_ℤ b a ≡ gt
gt_of_lt-compare_ℤ a b h = ground arith

pub compare_ℤ-lt_trans : (a b c : ℤ) → compare_ℤ a b ≡ lt → compare_ℤ b c ≡ lt → compare_ℤ a c ≡ lt
compare_ℤ-lt_trans a b c h k = ground arith

instance abbrev pub int_ord : Ord ℤ
int_ord = record {
  cmp = compare_ℤ;
  cmp_refl = compare_ℤ_refl;
  eq_of_cmp = eq_of_compare_ℤ;
  lt_of_gt = lt_of_gt-compare_ℤ;
  gt_of_lt = gt_of_lt-compare_ℤ;
  lt_trans = compare_ℤ-lt_trans;
}

abbrev pub max_ℤ : ℤ → ℤ → ℤ
max_ℤ a b = if ltb a b then b else a

abbrev pub min_ℤ : ℤ → ℤ → ℤ
min_ℤ a b = if ltb b a then b else a

abbrev pub u64_mod : ℕ
u64_mod = 18446744073709551616

abbrev pub u64_max : ℕ
u64_max = 18446744073709551615

abbrev pub i64_mod : ℕ
i64_mod = 9223372036854775808

abbrev pub i64_min : ℤ
i64_min = negsuc 9223372036854775807

abbrev pub i64_max : ℤ
i64_max = pos 9223372036854775807

-- `u64` addition and subtraction, which wrap in a release build.
abbrev pub add_u64 : ℕ → ℕ → ℕ
add_u64 a b = (a + b) % u64_mod

abbrev pub sub_u64 : ℕ → ℕ → ℕ
sub_u64 a b = (a + u64_mod - b % u64_mod) % u64_mod

-- `as i64` of a `u64`: the two's complement reading of the bits.
abbrev pub as_i64 : ℕ → ℤ
as_i64 n = if ltb n i64_mod then pos n else negsuc (u64_max - n)

-- `as u64` of an `i32` or `i64`: sign extension.
abbrev pub as_u64 : ℤ → ℕ
as_u64 (pos n) = n % u64_mod
as_u64 (negsuc n) = u64_max - n % u64_mod

-- `i64` addition: that of the bits.
abbrev pub add_i64 : ℤ → ℤ → ℤ
add_i64 a b = as_i64 (add_u64 (as_u64 a) (as_u64 b))

-- A sum of two nonnegative values that fits is the plain sum.
pub add_i64_pos : (m n : ℕ) → m + n < i64_mod → add_i64 (pos m) (pos n) ≡ pos (m + n)
add_i64_pos m n h = ground arith
