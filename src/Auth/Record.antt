-- ===== src/Auth/Record.antt =====
-- picomq/pico-auth/src/record.rs: the stored token record and its binary form, big-endian.
pub mod Decode
pub mod RoundTrip
use picomq.Prelude.{
  ℕ, ◌≡◌, Bool, true, false, not, ◌||◌, Option, none, some, List, [], ◌∷◌, ◌++◌, nat_ord, int_ord,
  ◌==◌, ltb, ℤ, pos, if◌then◌else◌, length, is_some, is_empty, map_or, Text, Bytes, as_i64, as_u64,
  set_from,
}
use picomq.Wire.Reads.{join}
use picomq.Wire.{
  Outcome, bind, Reader, ok, err, ◌>>=◌, pure, failing, many, chunk, reject_if, be, be_value,
  as_i32, as_u32, is_utf8,
}
use picomq.Auth.Error.{AuthError, malformed}
use picomq.Auth.Operation.{
  Operation, Audience, ReadWrite, Access, read, head, list, create, append, trim, close, delete,
  issue_token, revoke_token, list_tokens, consume, describe_group, delete_group, cluster_read,
  node_read, transfer_stream, update_node_slots, pico, durable_streams, admin, kafka, operation_ord,
  audience_ord,
}
use picomq.Auth.Scope.{ResourceMatcher, exact, prefix, ResourceSet, Scope}

pub record TokenRecord : Type 0 where
  pub id : Text
  pub verifier : Bytes
  pub scope : Scope
  pub created_at_ms : ℤ
  pub issued_by : Text

abbrev pub verifier_len : ℕ
verifier_len = 32

abbrev pub id_min_len : ℕ
id_min_len = 1

abbrev pub id_max_len : ℕ
id_max_len = 96

abbrev pub put_u8 : ℕ → Bytes
put_u8 v = v ∷ []

abbrev pub put_i32 : ℤ → Bytes
put_i32 v = be 4 (as_u32 v)

abbrev pub put_i64 : ℤ → Bytes
put_i64 v = be 8 (as_u64 v)

abbrev pub put_bool : Bool → Bytes
put_bool b = (if b then 1 else 0) ∷ []

unfoldable pub put_str : Text → Bytes
put_str s = put_i32 (as_i32 (length s)) ++ s

unfoldable pub operation_tag : Operation → ℕ
operation_tag read = 1
operation_tag head = 2
operation_tag list = 3
operation_tag create = 4
operation_tag append = 5
operation_tag trim = 6
operation_tag close = 7
operation_tag delete = 8
operation_tag issue_token = 9
operation_tag revoke_token = 10
operation_tag list_tokens = 11
operation_tag cluster_read = 12
operation_tag node_read = 13
operation_tag transfer_stream = 15
operation_tag update_node_slots = 16
operation_tag delete_group = 17
operation_tag consume = 18
operation_tag describe_group = 19

unfoldable pub audience_tag : Audience → ℕ
audience_tag pico = 1
audience_tag durable_streams = 2
audience_tag admin = 3
audience_tag kafka = 4

unfoldable pub put_matcher : ResourceMatcher → Bytes
unfolding put_str
put_matcher (exact name) = 1 ∷ put_str name
put_matcher (prefix p) = 2 ∷ put_str p

unfoldable pub encode_resource_set : ResourceSet → Bytes
unfolding put_matcher
encode_resource_set set = put_i32 (as_i32 (length set.matchers)) ++ join put_matcher set.matchers

unfoldable pub encode_rw : ReadWrite → Bytes
encode_rw rw = put_bool rw.read ++ put_bool rw.write

unfoldable pub encode_access : Access → Bytes
unfolding encode_rw
encode_access access =
    encode_rw access.stream
    ++ (encode_rw access.tokens ++ (encode_rw access.group ++ encode_rw access.admin))

abbrev pub put_operation : Operation → Bytes
put_operation op = put_u8 (operation_tag op)

abbrev pub put_audience : Audience → Bytes
put_audience audience = put_u8 (audience_tag audience)

abbrev pub unwrap_or : ℤ → Option ℤ → ℤ
unwrap_or d none = d
unwrap_or d (some z) = z

unfoldable pub encode_scope : Scope → Bytes
unfolding encode_resource_set encode_access operation_tag audience_tag
encode_scope scope =
    encode_resource_set scope.streams
    ++ (encode_resource_set scope.tokens
        ++ (encode_resource_set scope.groups
            ++ (encode_access scope.access
                ++ (put_i32 (as_i32 (length scope.ops))
                    ++ (join put_operation scope.ops
                        ++ (put_i32 (as_i32 (length scope.audiences))
                            ++ (join put_audience scope.audiences
                                ++ (put_bool scope.auto_prefix
                                    ++ (put_bool (is_some scope.expires_at_ms)
                                        ++ put_i64 (unwrap_or (pos 0) scope.expires_at_ms))))))))))

unfoldable pub encode : TokenRecord → Bytes
unfolding put_str encode_scope
encode record_ =
    put_str record_.id
    ++ (record_.verifier
        ++ (encode_scope record_.scope
            ++ (put_i64 record_.created_at_ms ++ put_str record_.issued_by)))
