-- ===== src/Wire/Words.antt =====
-- Machine integers as bytes, in both orders: `put_u32_le`, `put_i64`, `get_u64_le` and the like.
use picomq.Prelude.{
  ℕ, zero, suc, ◌+◌, ◌-◌, ◌*◌, ◌/◌, ◌%◌, ◌<◌, ◌≡◌, refl, List, [], ◌∷◌, arith, length, ltb, nat_ord,
  if◌then◌else◌, ℤ, pos, negsuc, Bytes, as_i64, as_u64,
}
use mathlib.Core.List.{reverse, reverse_aux, reverse-reverse}

-- The lowest `n` bytes of a number, least significant first.
unfoldable pub le : ℕ → ℕ → Bytes
le zero v = []
le (suc n) v = (v % 256) ∷ le n (v / 256)

unfoldable pub le_value : Bytes → ℕ
le_value [] = 0
le_value (b ∷ bs) = b + 256 * le_value bs

unfoldable pub be : ℕ → ℕ → Bytes
unfolding le
be n v = reverse (le n v)

unfoldable pub be_value : Bytes → ℕ
unfolding le_value
be_value bs = le_value (reverse bs)

-- 256 ^ n, in the form that arithmetic reads.
unfoldable pub bytes_mod : ℕ → ℕ
bytes_mod zero = 1
bytes_mod (suc n) = 256 * bytes_mod n

abbrev pub u32_mod : ℕ
u32_mod = 4294967296

-- `as u32` of an `i32`, and back.
abbrev pub as_u32 : ℤ → ℕ
as_u32 (pos n) = n % 4294967296
as_u32 (negsuc n) = 4294967295 - n % 4294967296

abbrev pub as_i32 : ℕ → ℤ
as_i32 n =
    let low = n % 4294967296 in if ltb low 2147483648 then pos low else negsuc (4294967295 - low)

abbrev pub IsI32 : ℤ → Type 0
IsI32 (pos n) = n < 2147483648
IsI32 (negsuc n) = n < 2147483648

abbrev pub IsI64 : ℤ → Type 0
IsI64 (pos n) = n < 9223372036854775808
IsI64 (negsuc n) = n < 9223372036854775808

pub length-le : (n v : ℕ) → length (le n v) ≡ n
unfolding le
length-le zero v = refl
length-le (suc n) v = ground (arith, length-le n (v / 256))

pub le_value-le : (n v : ℕ) → v < bytes_mod n → le_value (le n v) ≡ v
unfolding le le_value bytes_mod
le_value-le zero v h = omega arith
le_value-le (suc n) v h = ground (arith, le_value-le n (v / 256))

length-reverse_aux {ℓ} :
    {A : Type ℓ} (xs ys : List A) → length (reverse_aux xs ys) ≡ length xs + length ys
length-reverse_aux [] ys = ground arith
length-reverse_aux (x ∷ xs) ys = ground (arith, length-reverse_aux xs (x ∷ ys))

length-reverse {ℓ} : {A : Type ℓ} (xs : List A) → length (reverse xs) ≡ length xs
length-reverse xs = ground (arith, length-reverse_aux xs [])

pub length-be : (n v : ℕ) → length (be n v) ≡ n
unfolding be
length-be n v = rw (length-reverse (le n v)) (length-le n v)

pub be_value-be : (n v : ℕ) → v < bytes_mod n → be_value (be n v) ≡ v
unfolding be be_value
be_value-be n v h = rw (reverse-reverse (le n v)) (le_value-le n v h)

pub as_i32-as_u32 : (z : ℤ) → IsI32 z → as_i32 (as_u32 z) ≡ z
as_i32-as_u32 (pos n) h = ground arith
as_i32-as_u32 (negsuc n) h = ground arith

pub as_u32-lt : (z : ℤ) → as_u32 z < bytes_mod 4
unfolding bytes_mod
as_u32-lt (pos n) = ground arith
as_u32-lt (negsuc n) = ground arith

pub as_u64-lt : (z : ℤ) → as_u64 z < bytes_mod 8
unfolding bytes_mod
as_u64-lt (pos n) = ground arith
as_u64-lt (negsuc n) = ground arith

pub as_i64-as_u64 : (z : ℤ) → IsI64 z → as_i64 (as_u64 z) ≡ z
as_i64-as_u64 (pos n) h = ground arith
as_i64-as_u64 (negsuc n) h = ground arith

-- A length that an `i32` holds is kept by the cast.
pub as_i32_small : (n : ℕ) → n < 2147483648 → as_i32 n ≡ pos n
as_i32_small n h = ground arith
