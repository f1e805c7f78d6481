-- ===== src/Auth/Narrow.antt =====
-- picomq/pico-auth/src/narrow.rs: a token is issued only with a scope that the issuer's contains.
pub mod Names
pub mod Sound
pub mod Chain
use picomq.Prelude.{
  Bool, true, false, not, ◌&&◌, ◌||◌, Option, none, some, int_ord, leb, ℤ, all_of, is_empty,
  is_some, Text, if◌then◌else◌,
}
use picomq.Auth.Error.{AuthError, Result, ok, err, denied, malformed, narrowing_rejected}
use picomq.Auth.Operation.{ReadWrite, Access, issue_token}
use picomq.Auth.Scope.{
  Scope, matches, contains_set, contains_streams, allows_operation, allows_audience, sole_prefix,
  effective_ops,
}

unfoldable pub contains_rw : ReadWrite → ReadWrite → Bool
contains_rw parent child = (not child.read || parent.read) && (not child.write || parent.write)

unfoldable pub contains_access : Access → Access → Bool
unfolding contains_rw
contains_access parent child =
    contains_rw parent.stream child.stream
    && contains_rw parent.tokens child.tokens
    && contains_rw parent.group child.group
    && contains_rw parent.admin child.admin

unfoldable pub contains_expiry : Option ℤ → Option ℤ → Bool
contains_expiry none _ = true
contains_expiry (some _) none = false
contains_expiry (some p) (some c) = leb c p

unfoldable pub prefixed : Scope → Bool
prefixed scope = is_some (sole_prefix scope.streams) && is_some (sole_prefix scope.groups)

unfoldable pub contains_scope : Scope → Scope → Bool
unfolding contains_access contains_expiry prefixed
contains_scope issuer child =
    contains_streams issuer child.streams
    && contains_set issuer.tokens child.tokens
    && contains_set issuer.groups child.groups
    && contains_access issuer.access child.access
    && all_of (allows_operation issuer) child.ops
    && all_of (allows_audience issuer) child.audiences
    && contains_expiry issuer.expires_at_ms child.expires_at_ms
    && (not child.auto_prefix || prefixed child)

unfoldable pub check_issue : Scope → Text → Scope → Result (Unit {0})
unfolding contains_scope prefixed
check_issue issuer new_id requested =
    if not (allows_operation issuer issue_token)
    then err denied
    else if not (matches issuer.tokens new_id)
    then err narrowing_rejected
    else if requested.auto_prefix && not (prefixed requested)
    then err malformed
    else if is_empty (effective_ops requested)
    then err malformed
    else if is_empty requested.audiences
    then err malformed
    else if not (contains_scope issuer requested)
    then err narrowing_rejected
    else ok tt
