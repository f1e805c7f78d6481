-- ===== src/Server/Codec.antt =====
-- picomq/pico-server/src/codec.rs: the big-endian fields of the rows that the service keeps.
pub mod Fields
use picomq.Prelude.{
  ℕ, ◌≡◌, Bool, true, false, not, Option, none, some, List, [], ◌∷◌, ◌++◌, nat_ord, int_ord, ◌==◌,
  ltb, ℤ, pos, negsuc, ◌-◌, ◌%◌, length, Text, Bytes, as_i64, as_u64, is_empty, if◌then◌else◌,
  is_some,
}
use picomq.Wire.{
  Outcome, ok, err, Reader, ◌>>=◌, pure, chunk, reject_if, be, be_value, as_i32, as_u32, is_utf8,
}
use picomq.Server.Error.{ServiceError, internal, with_message}

abbrev pub corrupt : ServiceError
corrupt = with_message internal none false

abbrev pub put_u8 : ℕ → Bytes
put_u8 v = v ∷ []

abbrev pub put_u32 : ℕ → Bytes
put_u32 v = be 4 v

abbrev pub put_u64 : ℕ → Bytes
put_u64 v = be 8 v

abbrev pub put_i32 : ℤ → Bytes
put_i32 v = be 4 (as_u32 v)

-- `as u16` of an `i16`, and back.
abbrev pub as_u16 : ℤ → ℕ
as_u16 (pos n) = n % 65536
as_u16 (negsuc n) = 65535 - n % 65536

abbrev pub as_i16 : ℕ → ℤ
as_i16 n = if ltb n 32768 then pos n else negsuc (65535 - n)

abbrev pub put_i16 : ℤ → Bytes
put_i16 v = be 2 (as_u16 v)

abbrev pub put_i64 : ℤ → Bytes
put_i64 v = be 8 (as_u64 v)

unfoldable pub put_str : Text → Bytes
put_str value = put_i32 (as_i32 (length value)) ++ value

abbrev pub value_or : ℕ → Option ℕ → ℕ
value_or d none = d
value_or d (some n) = n

unfoldable pub put_opt_u64 : Option ℕ → Bytes
put_opt_u64 value = put_u8 (if is_some value then 1 else 0) ++ put_u64 (value_or 0 value)

unfoldable pub get_u8 : Reader ServiceError ℕ
get_u8 = chunk corrupt 1 >>= λ bytes. pure (be_value bytes)

unfoldable pub get_i16 : Reader ServiceError ℤ
get_i16 = chunk corrupt 2 >>= λ bytes. pure (as_i16 (be_value bytes))

unfoldable pub get_i32 : Reader ServiceError ℤ
get_i32 = chunk corrupt 4 >>= λ bytes. pure (as_i32 (be_value bytes))

unfoldable pub get_u32 : Reader ServiceError ℕ
get_u32 = chunk corrupt 4 >>= λ bytes. pure (be_value bytes)

unfoldable pub get_i64 : Reader ServiceError ℤ
get_i64 = chunk corrupt 8 >>= λ bytes. pure (as_i64 (be_value bytes))

unfoldable pub get_u64 : Reader ServiceError ℕ
get_u64 = chunk corrupt 8 >>= λ bytes. pure (be_value bytes)

unfoldable pub get_str : Reader ServiceError Text
unfolding get_i32
get_str = get_i32 >>= λ len. reject_if (ltb len (pos 0)) corrupt >>= λ _.
    chunk corrupt (as_u64 len) >>= λ value.
    reject_if (not (is_utf8 value)) corrupt >>= λ _. pure value

-- `present.then_some(value)`
abbrev pub present_value : Bool → ℕ → Option ℕ
present_value true n = some n
present_value false n = none

unfoldable pub get_opt_u64 : Reader ServiceError (Option ℕ)
unfolding get_u8 get_u64
get_opt_u64 = get_u8 >>= λ present. get_u64 >>= λ value. pure (present_value (present == 1) value)

unfoldable pub expect_version : ℕ → Reader ServiceError (Unit {0})
unfolding get_u8
expect_version expected = get_u8 >>= λ version. reject_if (not (version == expected)) corrupt

unfoldable pub expect_end : {A : Type 0} → A × Bytes → Outcome ServiceError A
expect_end (a, rest) = if is_empty rest then ok a else err corrupt
