-- ===== src/Auth/Scope.antt =====
-- picomq/pico-auth/src/scope.rs: sets of resource names and the scope of a token. A `BTreeSet` is
-- the list of its elements in order.
use picomq.Prelude.{
  Bool, true, false, not, ◌&&◌, ◌||◌, Option, none, some, List, [], ◌∷◌, nat_ord, bytes_ord,
  int_ord, ◌==◌, leb, ℤ, if◌then◌else◌, keep_if, all_of, is_empty, any, map, map_or, contains, Text,
  starts_with, ◌++◌, drop, length,
}
use picomq.Auth.Error.{Result, ok, err, denied}
use picomq.Auth.Name.{slash, canonical, canonical_eq, canonical_starts_with, strip_canonical_prefix}
use picomq.Auth.Operation.{
  Operation, Resource, stream, token, group, Access, Audience, of, rw_any, rw_allows, resource,
  writes, describes, all_operations, same_resource, operation_ord, audience_ord,
}

pub data ResourceMatcher : Type 0 where
  exact : Text → ResourceMatcher
  prefix : Text → ResourceMatcher

unfoldable pub matches_name : ResourceMatcher → Text → Bool
matches_name (exact e) name = name == e
matches_name (prefix p) name = starts_with name p

unfoldable pub contains_matcher : ResourceMatcher → ResourceMatcher → Bool
contains_matcher (exact a) (exact b) = a == b
contains_matcher (exact _) (prefix _) = false
contains_matcher (prefix p) (exact e) = starts_with e p
contains_matcher (prefix p) (prefix c) = starts_with c p

-- An empty set matches nothing.
pub record ResourceSet : Type 0 where
  pub matchers : List ResourceMatcher

unfoldable pub matches : ResourceSet → Text → Bool
unfolding matches_name
matches set name = any (λ m. matches_name m name) set.matchers

unfoldable pub contains_set : ResourceSet → ResourceSet → Bool
unfolding contains_matcher
contains_set parent child =
    if is_empty child.matchers
    then true
    else if is_empty parent.matchers
    then false
    else all_of (λ c. any (λ p. contains_matcher p c) parent.matchers) child.matchers

unfoldable pub sole_prefix_of : List ResourceMatcher → Option Text
sole_prefix_of (prefix p ∷ []) = some p
sole_prefix_of _ = none

unfoldable pub sole_prefix : ResourceSet → Option Text
unfolding sole_prefix_of
sole_prefix set = sole_prefix_of set.matchers

pub record Scope : Type 0 where
  pub streams : ResourceSet
  pub tokens : ResourceSet
  pub groups : ResourceSet
  pub access : Access
  pub ops : List Operation
  pub audiences : List Audience
  pub auto_prefix : Bool
  pub expires_at_ms : Option ℤ

unfoldable pub allows_audience : Scope → Audience → Bool
allows_audience scope audience = contains audience scope.audiences

unfoldable pub is_expired : Scope → ℤ → Bool
is_expired scope now_ms = map_or false (λ exp. leb exp now_ms) scope.expires_at_ms

unfoldable pub any_right_on : Scope → Option Resource → Bool
unfolding rw_any
any_right_on scope res =
    rw_any (of scope.access res) || any (λ op. same_resource (resource op) res) scope.ops

unfoldable pub allows_operation : Scope → Operation → Bool
unfolding any_right_on rw_allows
allows_operation scope op =
    if contains op scope.ops || rw_allows (of scope.access (resource op)) (writes op)
    then true
    else describes op && any_right_on scope (resource op)

abbrev pub stream_matches : Text → ResourceMatcher → Bool
stream_matches name (exact e) = canonical_eq e name
stream_matches name (prefix p) = canonical_starts_with name p

unfoldable pub allows_stream : Scope → Text → Bool
allows_stream scope name = any (stream_matches name) scope.streams.matchers

-- The test of the name, by the resource that the operation is on.
unfoldable pub allows_name : Scope → Option Resource → Option Text → Bool
unfolding allows_stream
allows_name scope (some stream) name = map_or false (allows_stream scope) name
allows_name scope (some token) name = map_or false (matches scope.tokens) name
allows_name scope (some group) name = map_or false (matches scope.groups) name
allows_name scope none name = true

unfoldable pub allows : Scope → Operation → Option Text → Bool
unfolding allows_operation allows_name
allows scope op name =
    if not (allows_operation scope op) then false else allows_name scope (resource op) name

unfoldable pub effective_ops : Scope → List Operation
unfolding allows_operation
effective_ops scope = keep_if (allows_operation scope) all_operations

abbrev pub canonical_matcher : ResourceMatcher → ResourceMatcher
canonical_matcher (exact e) = exact (canonical e)
canonical_matcher (prefix p) = prefix (canonical p)

abbrev pub canonical_set : ResourceSet → ResourceSet
canonical_set set = record { matchers = map canonical_matcher set.matchers }

unfoldable pub contains_streams : Scope → ResourceSet → Bool
unfolding contains_set
contains_streams scope child = contains_set (canonical_set scope.streams) (canonical_set child)

abbrev pub set_of : Scope → Resource → ResourceSet
set_of scope stream = scope.streams
set_of scope token = scope.tokens
set_of scope group = scope.groups

-- `trim_start_matches('/')`
unfoldable pub trim_slashes : Text → Text
trim_slashes [] = []
trim_slashes (c ∷ cs) = let rest = trim_slashes cs in if c == slash then rest else c ∷ cs

unfoldable pub ends_with_slash : Text → Bool
ends_with_slash [] = false
ends_with_slash (c ∷ []) = c == slash
ends_with_slash (c ∷ d ∷ cs) = ends_with_slash (d ∷ cs)

unfoldable pub join_prefix : Text → Text → Text
unfolding ends_with_slash
join_prefix p name =
    if ends_with_slash p then p ++ name else if is_empty name then p else p ++ (slash ∷ name)

unfoldable pub resolve : Scope → Resource → Text → Result Text
unfolding trim_slashes join_prefix sole_prefix
resolve scope res client_name =
    if not scope.auto_prefix then ok client_name else elim (sole_prefix (set_of scope res)) [
      | none ↦ err denied
      | some p ↦ ok (join_prefix p (trim_slashes client_name))
    ]

-- `str::strip_prefix`
unfoldable pub strip_prefix : Text → Text → Option Text
strip_prefix name p = if starts_with name p then some (drop (length p) name) else none

unfoldable pub stripped : Resource → Text → Text → Option Text
unfolding strip_prefix
stripped stream name p = strip_canonical_prefix name p
stripped token name p = strip_prefix name p
stripped group name p = strip_prefix name p

abbrev pub or_else : Text → Option Text → Text
or_else d none = d
or_else d (some t) = t

unfoldable pub strip : Scope → Resource → Text → Text
unfolding stripped sole_prefix
strip scope res stored_name =
    if not scope.auto_prefix then stored_name else elim (sole_prefix (set_of scope res)) [
      | none ↦ stored_name
      | some p ↦ or_else stored_name (stripped res stored_name p)
    ]
