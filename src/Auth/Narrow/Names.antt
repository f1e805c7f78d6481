-- ===== src/Auth/Narrow/Names.antt =====
-- picomq/pico-auth/src/scope.rs: a set that contains another one matches its names.
use picomq.Prelude.{
  ◌≡◌, refl, Bool, true, List, [], ◌∷◌, int_ord, bytes_ord, all_of, any, Text, arith, any_mono,
  any-all_of, any-map, eq_comm, eq_of_test, starts_with_trans, any_ext, sym, ◌∙◌,
}
use picomq.Auth.Name.{canonical, canonical_chars, canonical_eq, canonical_starts_with-canonical}
use picomq.Auth.Operation.{operation_ord, audience_ord}
use picomq.Auth.Scope.{
  ResourceMatcher, ResourceSet, exact, prefix, Scope, matches, matches_name, contains_matcher,
  contains_set, contains_streams, allows_stream, canonical_matcher, canonical_set, stream_matches,
}

contains_matcher-matches_name :
    (p c : ResourceMatcher) (name : Text)
    → contains_matcher p c ≡ true
    → matches_name c name ≡ true
    → matches_name p name ≡ true
unfolding contains_matcher matches_name
contains_matcher-matches_name (exact a) (exact b) name h k =
    ground (arith, eq_of_test a b, eq_of_test name b)
contains_matcher-matches_name (exact a) (prefix c) name h k = cc
contains_matcher-matches_name (prefix p) (exact e) name h k = ground (arith, eq_of_test name e)
contains_matcher-matches_name (prefix p) (prefix c) name h k = starts_with_trans name c p k h

-- Each matcher of a contained set lies within one of the containing set.
abbrev covers : List ResourceMatcher → ResourceMatcher → Bool
covers ps c = any (λ p. contains_matcher p c) ps

contains_set-covers :
    (ps cs : List ResourceMatcher)
    → contains_set (record { matchers = ps }) (record { matchers = cs }) ≡ true
    → all_of (covers ps) cs ≡ true
unfolding contains_set
contains_set-covers ps [] h = refl
contains_set-covers [] (c ∷ cs) h = cc
contains_set-covers (p ∷ ps) (c ∷ cs) h = h

-- Every name of a contained set is one of the containing set.
pub contains_set-matches :
    (parent child : ResourceSet) (name : Text)
    → contains_set parent child ≡ true
    → matches child name ≡ true
    → matches parent name ≡ true
unfolding contains_set matches
contains_set-matches parent child name h k =
    let (c, above, hit) =
      any-all_of (covers parent.matchers) (λ c. matches_name c name) child.matchers
        (contains_set-covers parent.matchers child.matchers h) k in
    any_mono (λ p. contains_matcher p c) (λ p. matches_name p name) parent.matchers
      (λ p e. contains_matcher-matches_name p c name e hit) above

stream_matches-canonical :
    (name : Text) (m : ResourceMatcher)
    → stream_matches name m ≡ matches_name (canonical_matcher m) (canonical name)
unfolding matches_name canonical_eq
stream_matches-canonical name (exact e) =
    unfold canonical_chars canonical in eq_comm ⦃o = bytes_ord⦄ (canonical e) (canonical name)
stream_matches-canonical name (prefix p) = canonical_starts_with-canonical name p

allows_stream-canonical :
    (scope : Scope) (name : Text)
    → allows_stream scope name ≡ matches (canonical_set scope.streams) (canonical name)
unfolding allows_stream matches
allows_stream-canonical scope name =
    any_ext _ _ scope.streams.matchers (stream_matches-canonical name)
    ∙ sym (any-map (λ m. matches_name m (canonical name)) canonical_matcher scope.streams.matchers)

pub contains_streams-allows_stream :
    (issuer child : Scope) (name : Text)
    → contains_streams issuer child.streams ≡ true
    → allows_stream child name ≡ true
    → allows_stream issuer name ≡ true
unfolding contains_streams
contains_streams-allows_stream issuer child name h k = rw (allows_stream-canonical issuer name) (
    contains_set-matches (canonical_set issuer.streams) (canonical_set child.streams)
      (canonical name) h (rw (allows_stream-canonical child name) at k))
