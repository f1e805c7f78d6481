-- ===== src/Metadata/Codec/Primitives.antt =====
-- picomq/pico-metadata/src/codec.rs: integers, strings, blobs, proposers and string maps.
use picomq.Prelude.{
  ℕ, ◌%◌, not, List, [], ◌∷◌, ◌++◌, nat_ord, bytes_ord, ◌==◌, ℤ, length, Text, Bytes, as_i64,
  as_u64, is_empty, if◌then◌else◌,
}
use picomq.OrdMap.{OrdMap, iter}
use picomq.OrdMap.Refill.{refill}
use picomq.Wire.{
  Outcome, Reader, ok, err, ◌>>=◌, pure, many, chunk, reject_if, le, le_value, u32_mod, as_i32,
  as_u32, is_utf8,
}
use picomq.Wire.Reads.{join}
use picomq.Metadata.Command.{Proposer}

pub data CodecError : Type 0 where
  unsupported_version unknown_command unknown_result : ℕ → CodecError
  corrupt : CodecError

abbrev pub put_u8 : ℕ → Bytes
put_u8 v = v ∷ []

abbrev pub put_u32 : ℕ → Bytes
put_u32 v = le 4 v

abbrev pub put_u64 : ℕ → Bytes
put_u64 v = le 8 v

abbrev pub put_i32 : ℤ → Bytes
put_i32 v = le 4 (as_u32 v)

abbrev pub put_i64 : ℤ → Bytes
put_i64 v = le 8 (as_u64 v)

-- `len() as u32`
abbrev pub put_len {ℓ} : {A : Type ℓ} → List A → Bytes
put_len xs = put_u32 (length xs % u32_mod)

unfoldable pub put_str : Text → Bytes
put_str s = put_len s ++ s

unfoldable pub put_blob : Bytes → Bytes
put_blob value = put_len value ++ value

abbrev pub put_pair : Text × Text → Bytes
put_pair e = put_str e.0 ++ put_str e.1

unfoldable pub put_str_map : OrdMap Text Text → Bytes
unfolding put_str
put_str_map m = put_len (iter m) ++ join put_pair (iter m)

unfoldable pub put_proposer : Proposer → Bytes
put_proposer p = put_i32 p.node_id ++ put_i64 p.node_epoch

unfoldable pub get_u8 : Reader CodecError ℕ
get_u8 = chunk corrupt 1 >>= λ bytes. pure (le_value bytes)

unfoldable pub get_u32 : Reader CodecError ℕ
get_u32 = chunk corrupt 4 >>= λ bytes. pure (le_value bytes)

unfoldable pub get_i32 : Reader CodecError ℤ
get_i32 = chunk corrupt 4 >>= λ bytes. pure (as_i32 (le_value bytes))

unfoldable pub get_u64 : Reader CodecError ℕ
get_u64 = chunk corrupt 8 >>= λ bytes. pure (le_value bytes)

unfoldable pub get_i64 : Reader CodecError ℤ
get_i64 = chunk corrupt 8 >>= λ bytes. pure (as_i64 (le_value bytes))

unfoldable pub get_str : Reader CodecError Text
unfolding get_u32
get_str = get_u32 >>= λ len.
    chunk corrupt len >>= λ s. reject_if (not (is_utf8 s)) corrupt >>= λ _. pure s

unfoldable pub get_blob : Reader CodecError Bytes
unfolding get_u32
get_blob = get_u32 >>= λ len. chunk corrupt len

unfoldable pub get_pair : Reader CodecError (Text × Text)
unfolding get_str
get_pair = get_str >>= λ key. get_str >>= λ value. pure (key, value)

unfoldable pub get_str_map : Reader CodecError (OrdMap Text Text)
unfolding get_u32 get_pair
get_str_map = get_u32 >>= λ len. many len get_pair >>= λ entries. pure (refill entries)

unfoldable pub get_proposer : Reader CodecError Proposer
unfolding get_i32 get_i64
get_proposer = get_i32 >>= λ node_id.
    get_i64 >>= λ node_epoch. pure (record { node_id = node_id; node_epoch = node_epoch })

abbrev pub codec_version : ℕ
codec_version = 0

unfoldable pub check_version : Reader CodecError (Unit {0})
unfolding get_u8
check_version =
    get_u8 >>= λ version. reject_if (not (version == codec_version)) (unsupported_version version)

-- `ensure_drained` at the end, and the value.
unfoldable pub ensure_drained : {A : Type 0} → A × Bytes → Outcome CodecError A
ensure_drained (a, rest) = if is_empty rest then ok a else err corrupt
