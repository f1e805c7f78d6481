-- ===== src/Auth/Same.antt =====
-- picomq/pico-auth: the derived equality of token records.
use picomq.Prelude.{
  ◌≡◌, Bool, true, false, ◌&&◌, nat_ord, bytes_ord, int_ord, ◌==◌, eq_of_test, same_list,
  same_option, eq_of_same_list, eq_of_same_option, arith,
}
use picomq.Auth.Operation.{ReadWrite, Access, operation_ord, audience_ord}
use picomq.Auth.Scope.{ResourceMatcher, exact, prefix, ResourceSet, Scope}
use picomq.Auth.Record.{TokenRecord}

abbrev same_bool : Bool → Bool → Bool
same_bool true b = b
same_bool false true = false
same_bool false false = true

unfoldable same_matcher : ResourceMatcher → ResourceMatcher → Bool
same_matcher (exact a) (exact b) = a == b
same_matcher (exact _) (prefix _) = false
same_matcher (prefix _) (exact _) = false
same_matcher (prefix a) (prefix b) = a == b

unfoldable same_set : ResourceSet → ResourceSet → Bool
same_set a b = same_list same_matcher a.matchers b.matchers

unfoldable same_rw : ReadWrite → ReadWrite → Bool
same_rw a b = same_bool a.read b.read && same_bool a.write b.write

unfoldable same_access : Access → Access → Bool
same_access a b =
    same_rw a.stream b.stream
    && same_rw a.tokens b.tokens
    && same_rw a.group b.group
    && same_rw a.admin b.admin

unfoldable same_scope : Scope → Scope → Bool
same_scope a b =
    same_set a.streams b.streams
    && same_set a.tokens b.tokens
    && same_set a.groups b.groups
    && same_access a.access b.access
    && same_list ◌==◌ a.ops b.ops
    && same_list ◌==◌ a.audiences b.audiences
    && same_bool a.auto_prefix b.auto_prefix
    && same_option ◌==◌ a.expires_at_ms b.expires_at_ms

unfoldable pub same_record : TokenRecord → TokenRecord → Bool
unfolding same_matcher same_set same_rw same_access same_scope
same_record a b =
    a.id == b.id
    && a.verifier == b.verifier
    && same_scope a.scope b.scope
    && a.created_at_ms == b.created_at_ms
    && a.issued_by == b.issued_by

eq_of_same_matcher : (a b : ResourceMatcher) → same_matcher a b ≡ true → a ≡ b
unfolding same_matcher
eq_of_same_matcher (exact a) (exact b) h = ground (arith, eq_of_test a b)
eq_of_same_matcher (exact _) (prefix _) h = cc
eq_of_same_matcher (prefix _) (exact _) h = cc
eq_of_same_matcher (prefix a) (prefix b) h = ground (arith, eq_of_test a b)

eq_of_same_set : (a b : ResourceSet) → same_set a b ≡ true → a ≡ b
unfolding same_set
eq_of_same_set a b h =
    ground (arith, eq_of_same_list same_matcher eq_of_same_matcher a.matchers b.matchers)

eq_of_same_rw : (a b : ReadWrite) → same_rw a b ≡ true → a ≡ b
unfolding same_rw
eq_of_same_rw a b h = ground arith

eq_of_same_access : (a b : Access) → same_access a b ≡ true → a ≡ b
unfolding same_access
eq_of_same_access a b h = ground (
  arith,
  eq_of_same_rw a.stream b.stream,
  eq_of_same_rw a.tokens b.tokens,
  eq_of_same_rw a.group b.group,
  eq_of_same_rw a.admin b.admin,
)

eq_of_same_scope : (a b : Scope) → same_scope a b ≡ true → a ≡ b
unfolding same_scope
eq_of_same_scope a b h = ground (
  arith,
  eq_of_same_set a.streams b.streams,
  eq_of_same_set a.tokens b.tokens,
  eq_of_same_set a.groups b.groups,
  eq_of_same_access a.access b.access,
  eq_of_same_list ◌==◌ eq_of_test a.ops b.ops,
  eq_of_same_list ◌==◌ eq_of_test a.audiences b.audiences,
  eq_of_same_option ◌==◌ eq_of_test a.expires_at_ms b.expires_at_ms,
)

-- Records that the test takes for equal are equal.
pub eq_of_same_record : (a b : TokenRecord) → same_record a b ≡ true → a ≡ b
unfolding same_record
eq_of_same_record a b h = ground (
  arith,
  eq_of_test a.id b.id,
  eq_of_test a.verifier b.verifier,
  eq_of_same_scope a.scope b.scope,
  eq_of_test a.created_at_ms b.created_at_ms,
  eq_of_test a.issued_by b.issued_by,
)
