-- ===== src/Auth/Record/Decode.antt =====
-- picomq/pico-auth/src/record.rs: the decoding of a token record.
use picomq.Prelude.{
  ℕ, Bool, true, false, not, ◌||◌, Option, none, some, nat_ord, int_ord, ◌==◌, ltb, ℤ, pos,
  if◌then◌else◌, length, is_empty, Text, Bytes, as_i64, as_u64, set_from,
}
use picomq.Wire.{
  Outcome, bind, Reader, ok, err, ◌>>=◌, pure, failing, many, chunk, reject_if, be_value, as_i32,
  is_utf8,
}
use picomq.Auth.Error.{AuthError, malformed}
use picomq.Auth.Operation.{
  Operation, Audience, ReadWrite, Access, read, head, list, create, append, trim, close, delete,
  issue_token, revoke_token, list_tokens, consume, describe_group, delete_group, cluster_read,
  node_read, transfer_stream, update_node_slots, pico, durable_streams, admin, kafka, operation_ord,
  audience_ord,
}
use picomq.Auth.Scope.{ResourceMatcher, exact, prefix, ResourceSet, Scope}
use picomq.Auth.Record.{TokenRecord, verifier_len, id_min_len, id_max_len}

unfoldable pub validate_id : Text → Reader AuthError (Unit {0})
validate_id id = reject_if (ltb (length id) id_min_len || ltb id_max_len (length id)) malformed

unfoldable pub operation_from_tag : ℕ → Reader AuthError Operation
operation_from_tag tag =
    if tag == 1
    then pure read
    else if tag == 2
    then pure head
    else if tag == 3
    then pure list
    else if tag == 4
    then pure create
    else if tag == 5
    then pure append
    else if tag == 6
    then pure trim
    else if tag == 7
    then pure close
    else if tag == 8
    then pure delete
    else if tag == 9
    then pure issue_token
    else if tag == 10
    then pure revoke_token
    else if tag == 11
    then pure list_tokens
    else if tag == 12
    then pure cluster_read
    else if tag == 13
    then pure node_read
    else if tag == 15
    then pure transfer_stream
    else if tag == 16
    then pure update_node_slots
    else if tag == 17
    then pure delete_group
    else if tag == 18
    then pure consume
    else if tag == 19
    then pure describe_group
    else failing malformed

unfoldable pub audience_from_tag : ℕ → Reader AuthError Audience
audience_from_tag tag =
    if tag == 1
    then pure pico
    else if tag == 2
    then pure durable_streams
    else if tag == 3
    then pure admin
    else if tag == 4
    then pure kafka
    else failing malformed

-- `ensure` and the read of that many bytes.
unfoldable pub get_u8 : Reader AuthError ℕ
get_u8 = chunk malformed 1 >>= λ bytes. pure (be_value bytes)

unfoldable pub get_i32 : Reader AuthError ℤ
get_i32 = chunk malformed 4 >>= λ bytes. pure (as_i32 (be_value bytes))

unfoldable pub get_i64 : Reader AuthError ℤ
get_i64 = chunk malformed 8 >>= λ bytes. pure (as_i64 (be_value bytes))

-- A length or a count: a negative one is malformed, any other is `as usize`.
unfoldable pub get_count : Reader AuthError ℕ
unfolding get_i32
get_count = get_i32 >>= λ n. reject_if (ltb n (pos 0)) malformed >>= λ _. pure (as_u64 n)

unfoldable pub get_str : Reader AuthError Text
unfolding get_count
get_str = get_count >>= λ len.
    chunk malformed len >>= λ s. reject_if (not (is_utf8 s)) malformed >>= λ _. pure s

unfoldable pub get_verifier : Reader AuthError Bytes
get_verifier = chunk malformed verifier_len

unfoldable pub get_bool : Reader AuthError Bool
unfolding get_u8
get_bool = get_u8 >>= λ b. pure (b == 1)

unfoldable pub decode_rw : Reader AuthError ReadWrite
unfolding get_bool
decode_rw = get_bool >>= λ r. get_bool >>= λ w. pure (record { read = r; write = w })

unfoldable pub decode_access : Reader AuthError Access
unfolding decode_rw
decode_access = decode_rw >>= λ s. decode_rw >>= λ t. decode_rw >>= λ g.
    decode_rw >>= λ a. pure (record { stream = s; tokens = t; group = g; admin = a })

unfoldable pub get_matcher_of : ℕ → Reader AuthError ResourceMatcher
unfolding get_str
get_matcher_of tag =
    if tag == 1
    then (get_str >>= λ name. pure (exact name))
    else if tag == 2
    then (get_str >>= λ p. pure (prefix p))
    else failing malformed

unfoldable pub get_matcher : Reader AuthError ResourceMatcher
unfolding get_u8 get_matcher_of
get_matcher = get_u8 >>= get_matcher_of

unfoldable pub decode_resource_set : Reader AuthError ResourceSet
unfolding get_count get_matcher
decode_resource_set =
    get_count >>= λ count. many count get_matcher >>= λ ms. pure (record { matchers = ms })

unfoldable pub get_operation : Reader AuthError Operation
unfolding get_u8 operation_from_tag
get_operation = get_u8 >>= operation_from_tag

unfoldable pub get_audience : Reader AuthError Audience
unfolding get_u8 audience_from_tag
get_audience = get_u8 >>= audience_from_tag

-- `expires_flag.then_some(expires_raw)`
abbrev pub then_some : Bool → ℤ → Option ℤ
then_some true z = some z
then_some false z = none

unfoldable pub decode_scope : Reader AuthError Scope
unfolding decode_resource_set decode_access get_count get_operation get_audience get_bool get_i64
decode_scope = decode_resource_set >>= λ streams. decode_resource_set >>= λ tokens.
    decode_resource_set >>= λ groups. decode_access >>= λ access. get_count >>= λ ops_len.
    many ops_len get_operation >>= λ ops. get_count >>= λ audiences_len.
    many audiences_len get_audience >>= λ audiences. get_bool >>= λ auto_prefix.
    get_bool >>= λ expires_flag. get_i64 >>= λ expires_raw. pure (record {
      streams = streams;
      tokens = tokens;
      groups = groups;
      access = access;
      ops = set_from ops;
      audiences = set_from audiences;
      auto_prefix = auto_prefix;
      expires_at_ms = then_some expires_flag expires_raw;
    })

unfoldable pub decode_record : Reader AuthError TokenRecord
unfolding get_str validate_id get_verifier decode_scope get_i64
decode_record = get_str >>= λ id. validate_id id >>= λ _. get_verifier >>= λ verifier.
    decode_scope >>= λ scope. get_i64 >>= λ created_at_ms. get_str >>= λ issued_by. pure (record {
      id = id;
      verifier = verifier;
      scope = scope;
      created_at_ms = created_at_ms;
      issued_by = issued_by;
    })

-- The whole slice is one value: nothing may be left.
unfoldable pub drained : TokenRecord × Bytes → Outcome AuthError TokenRecord
drained (r, rest) = if is_empty rest then ok r else err malformed

unfoldable pub decode : Bytes → Outcome AuthError TokenRecord
unfolding decode_record drained
decode bytes = bind (decode_record bytes) drained
