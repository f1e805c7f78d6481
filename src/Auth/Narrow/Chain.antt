-- ===== src/Auth/Narrow/Chain.antt =====
-- picomq/pico-auth/src/narrow.rs: tokens that issue tokens that issue tokens.
use picomq.Prelude.{◌≡◌, ℤ, Option, true, Text, arith}
use picomq.Auth.Error.{ok}
use picomq.Auth.Operation.{Operation, Audience}
use picomq.Auth.Scope.{Scope}
use picomq.Auth.Narrow.{contains_scope, check_issue}
use picomq.Auth.Narrow.Sound.{Permits, contains_scope-Permits}

-- The scopes that come from a first one by issuing tokens, one from the other.
pub data Descends (root : Scope) : Scope → Type 0 where
  start : Descends root root
  issue :
      {issuer : Scope} (new_id : Text) {child : Scope}
      → Descends root issuer
      → check_issue issuer new_id child ≡ ok tt
      → Descends root child

check_issue-contains_scope :
    (issuer : Scope) (new_id : Text) (child : Scope)
    → check_issue issuer new_id child ≡ ok tt
    → contains_scope issuer child ≡ true
unfolding check_issue
check_issue-contains_scope issuer new_id child h = ground arith

-- However long the chain of issues from a first token, a request that the last token's scope permits
-- (in time, at the listener, for the operation and the name) is one that the first token's permits.
pub chain-Permits :
    {root last : Scope} (now : ℤ) (audience : Audience) (op : Operation) (name : Option Text)
    → Descends root last
    → Permits last now audience op name
    → Permits root now audience op name
chain-Permits now audience op name start p = p
chain-Permits now audience op name (issue {issuer} new_id {child} above h) p =
    chain-Permits now audience op name above (
      contains_scope-Permits issuer child now audience op name
        (check_issue-contains_scope issuer new_id child h) p)
