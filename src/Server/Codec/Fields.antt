-- ===== src/Server/Codec/Fields.antt =====
-- picomq/pico-server/src/codec.rs: the fields are read back.
use mathlib.Core.List.{append-nil}
use picomq.Prelude.{
  ℕ, ◌<◌, ◌≡◌, refl, true, false, Option, none, some, List, [], ◌∷◌, nat_ord, int_ord, ltb, ℤ, pos,
  negsuc, length, All, Text, Bytes, as_u64, arith, eq_self,
}
use picomq.Wire.{
  ok, bind, Reader, be_value, le_value, bytes_mod, be_value-be, as_u32, as_i32-as_u32, as_u32-lt,
  as_u64-lt, as_i64-as_u64, as_i32_small, IsI32, IsI64, is_utf8, many,
}
use picomq.Wire.Reads.{
  Reads, Reads-bind, Reads-map, Reads-last, Reads-skip, Reads-pure, Reads-many, Reads-chunk,
  Reads-reject_if, Reads-be, Reads-eq, join,
}
use picomq.Server.Error.{ServiceError}
use picomq.Server.Codec.{
  corrupt, put_u32, put_u64, put_i16, put_i32, put_i64, put_str, put_opt_u64, as_u16, as_i16,
  get_u8, get_i16, get_i32, get_u32, get_i64, get_u64, get_str, get_opt_u64, expect_version,
  expect_end,
}

abbrev pub IsU32 : ℕ → Type 0
IsU32 n = n < 4294967296

abbrev pub IsU64 : ℕ → Type 0
IsU64 n = n < 18446744073709551616

abbrev pub IsI16 : ℤ → Type 0
IsI16 (pos n) = n < 32768
IsI16 (negsuc n) = n < 32768

pub get_u8-Reads : (v : ℕ) → Reads get_u8 (v ∷ []) v
unfolding get_u8
get_u8-Reads v =
    Reads-eq (Reads-map _ (Reads-chunk corrupt (v ∷ []))) (unfold be_value le_value in omega arith)

u32_fits : (v : ℕ) → IsU32 v → v < bytes_mod 4
unfolding bytes_mod
u32_fits v h = omega arith

u64_fits : (v : ℕ) → IsU64 v → v < bytes_mod 8
unfolding bytes_mod
u64_fits v h = omega arith

u16_fits : (z : ℤ) → as_u16 z < bytes_mod 2
unfolding bytes_mod
u16_fits (pos n) = ground arith
u16_fits (negsuc n) = ground arith

as_i16-as_u16 : (z : ℤ) → IsI16 z → as_i16 (as_u16 z) ≡ z
as_i16-as_u16 (pos n) h = ground arith
as_i16-as_u16 (negsuc n) h = ground arith

pub get_u32-Reads : (v : ℕ) → IsU32 v → Reads get_u32 (put_u32 v) v
unfolding get_u32
get_u32-Reads v h = Reads-eq (Reads-map _ (Reads-be corrupt 4 v)) (be_value-be 4 v (u32_fits v h))

pub get_u64-Reads : (v : ℕ) → IsU64 v → Reads get_u64 (put_u64 v) v
unfolding get_u64
get_u64-Reads v h = Reads-eq (Reads-map _ (Reads-be corrupt 8 v)) (be_value-be 8 v (u64_fits v h))

pub get_i16-Reads : (z : ℤ) → IsI16 z → Reads get_i16 (put_i16 z) z
unfolding get_i16
get_i16-Reads z h =
    Reads-eq (Reads-map _ (Reads-be corrupt 2 (as_u16 z)))
      (rw (be_value-be 2 (as_u16 z) (u16_fits z)) (as_i16-as_u16 z h))

pub get_i32-Reads : (z : ℤ) → IsI32 z → Reads get_i32 (put_i32 z) z
unfolding get_i32
get_i32-Reads z h =
    Reads-eq (Reads-map _ (Reads-be corrupt 4 (as_u32 z)))
      (rw (be_value-be 4 (as_u32 z) (as_u32-lt z)) (as_i32-as_u32 z h))

pub get_i64-Reads : (z : ℤ) → IsI64 z → Reads get_i64 (put_i64 z) z
unfolding get_i64
get_i64-Reads z h =
    Reads-eq (Reads-map _ (Reads-be corrupt 8 (as_u64 z)))
      (rw (be_value-be 8 (as_u64 z) (as_u64-lt z)) (as_i64-as_u64 z h))

abbrev pub IsStr : Text → Type 0
IsStr s = (length s < 2147483648) × (is_utf8 s ≡ true)

not_negative : (n : ℕ) → ltb (pos n) (pos 0) ≡ false
not_negative n = ground arith

as_u64_small : (n : ℕ) → n < 2147483648 → as_u64 (pos n) ≡ n
as_u64_small n h = ground arith

pub get_str-Reads : (s : Text) → IsStr s → Reads get_str (put_str s) s
unfolding get_str put_str
get_str-Reads s (fits, valid) = rw (as_i32_small (length s) fits) (
    Reads-bind _ (get_i32-Reads (pos (length s)) fits) (
      Reads-skip _ (Reads-reject_if corrupt (not_negative (length s))) (
        Reads-last _ (rw (as_u64_small (length s) fits) (Reads-chunk corrupt s))
          (Reads-last _ (Reads-reject_if corrupt (rw valid refl)) (Reads-pure s)))))

abbrev pub FitsU64 : Option ℕ → Type 0
FitsU64 none = Unit
FitsU64 (some n) = IsU64 n

pub get_opt_u64-Reads : (o : Option ℕ) → FitsU64 o → Reads get_opt_u64 (put_opt_u64 o) o
unfolding get_opt_u64 put_opt_u64
get_opt_u64-Reads none h =
    Reads-bind _ (get_u8-Reads 0) (Reads-map _ (get_u64-Reads 0 (omega arith)))
get_opt_u64-Reads (some n) h = Reads-bind _ (get_u8-Reads 1) (Reads-map _ (get_u64-Reads n h))

pub expect_version-Reads : (v : ℕ) → Reads (expect_version v) (v ∷ []) tt
unfolding expect_version
expect_version-Reads v =
    Reads-last _ (get_u8-Reads v) (Reads-reject_if corrupt (rw (eq_self v) refl))

module _ {A : Type 0} {p : Reader ServiceError A} {xs : Bytes} {a : A} where
  pub expect_end-ok : Reads p xs a → bind (p xs) expect_end ≡ ok a
  expect_end-ok r = rw (rw append-nil at (r.reads [])) (unfold expect_end in refl)

-- What every element of a list allows, a loop reads.
pub All-Reads {ℓ κ} :
    {A : Type ℓ} {P : A → Type κ} (p : Reader ServiceError A) (f : A → Bytes)
    → ((x : A) → P x → Reads p (f x) x)
    → (xs : List A) → All P xs
    → Reads (many (length xs) p) (join f xs) xs
All-Reads {P} p f k xs h = Reads-many p f xs (each xs h)
  where
    each : (ys : List _) → All P ys → All (λ y. Reads p (f y) y) ys
    each [] t = tt
    each (y ∷ ys) (t, ts) = (k y t, each ys ts)
