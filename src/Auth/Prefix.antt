-- ===== src/Auth/Prefix.antt =====
-- picomq/pico-auth/src/scope.rs: a token with `auto_prefix` is confined to its prefix, and sees names
-- without it.
use picomq.Prelude.{
  ℕ, ◌+◌, ◌≡◌, refl, sym, true, some, List, [], ◌∷◌, ◌++◌, nat_ord, ◌==◌, map, length, Text,
  starts_with, starts_with-append, drop-append_length, arith, if◌then◌else◌, inl, inr, Bool-cases,
  Option-cases, is_empty, any-cons, ap,
}
use mathlib.Core.List.{append-nil}
use picomq.Auth.Error.{Result, ok, denied}
use picomq.Auth.Name.{
  slash, dotted, canonical, without_slash, canonical_starts_with-canonical, strip_canonical_prefix,
}
use picomq.Auth.Operation.{Resource, stream, token, group}
use picomq.Auth.Scope.{
  Scope, ResourceMatcher, exact, prefix, matches, matches_name, allows_name, allows_stream,
  sole_prefix, sole_prefix_of, set_of, resolve, join_prefix, trim_slashes, ends_with_slash, strip,
  strip_prefix, stripped, stream_matches,
}

map-append_dotted : (xs ys : Text) → map dotted (xs ++ ys) ≡ map dotted xs ++ map dotted ys
map-append_dotted [] ys = refl
map-append_dotted (x ∷ xs) ys = rw (map-append_dotted xs ys) refl

-- The canonical form of a prefix is a prefix of the canonical form.
canonical-append : (p s : Text) → starts_with (canonical (p ++ s)) (canonical p) ≡ true
canonical-append [] s = unfold canonical without_slash starts_with in ground arith
canonical-append (c ∷ p) s = elim (Bool-cases (c == slash)) [
  | inl e ↦
      unfold canonical without_slash in
      rw (e, map-append_dotted p s) (starts_with-append (map dotted p) (map dotted s))
  | inr e ↦
      unfold canonical without_slash in
      rw (e, map-append_dotted p s) (starts_with-append (map dotted (c ∷ p)) (map dotted s))
]

-- What a stored name has behind the prefix.
abbrev behind : Text → Text → Text
behind p name = if ends_with_slash p then name else if is_empty name then [] else slash ∷ name

join_prefix-append : (p name : Text) → join_prefix p name ≡ p ++ behind p name
unfolding join_prefix
join_prefix-append p name = elim (Bool-cases (ends_with_slash p)) [
  | inl e ↦ rw e refl
  | inr e ↦ rw e (bare name)
]
  where
    bare :
        (n : Text)
        → (if is_empty n then p else p ++ (slash ∷ n)) ≡ p ++ (if is_empty n then [] else slash ∷ n)
    bare [] = sym (append-nil p)
    bare (c ∷ cs) = refl

matchers_of_sole_prefix :
    (ms : List ResourceMatcher) (p : Text) → sole_prefix_of ms ≡ some p → ms ≡ prefix p ∷ []
unfolding sole_prefix_of
matchers_of_sole_prefix [] p h = cc
matchers_of_sole_prefix (exact e ∷ ms) p h = cc
matchers_of_sole_prefix (prefix q ∷ []) p h = cc
matchers_of_sole_prefix (prefix q ∷ m ∷ ms) p h = cc

-- A name behind the sole prefix of a set is a name of the set.
allows_name-sole_prefix :
    (scope : Scope) (res : Resource) (p rest : Text)
    → sole_prefix (set_of scope res) ≡ some p
    → allows_name scope (some res) (some (p ++ rest)) ≡ true
unfolding allows_name allows_stream matches matches_name sole_prefix
allows_name-sole_prefix scope stream p rest h =
    rw (matchers_of_sole_prefix scope.streams.matchers p h) (
      any-cons (stream_matches (p ++ rest)) (prefix p) []
        (rw (canonical_starts_with-canonical (p ++ rest) p) (canonical-append p rest)))
allows_name-sole_prefix scope token p rest h =
    rw (matchers_of_sole_prefix scope.tokens.matchers p h)
      (any-cons (λ m. matches_name m (p ++ rest)) (prefix p) [] (starts_with-append p rest))
allows_name-sole_prefix scope group p rest h =
    rw (matchers_of_sole_prefix scope.groups.matchers p h)
      (any-cons (λ m. matches_name m (p ++ rest)) (prefix p) [] (starts_with-append p rest))

resolve-sole_prefix :
    (scope : Scope) (res : Resource) (name stored : Text)
    → scope.auto_prefix ≡ true
    → resolve scope res name ≡ ok stored
    → (p : Text) × (sole_prefix (set_of scope res) ≡ some p)
      × (stored ≡ p ++ behind p (trim_slashes name))
unfolding resolve
resolve-sole_prefix scope res name stored auto h =
    elim (Option-cases (sole_prefix (set_of scope res))) [
      | inl e ↦ absurd (stuck (rw (auto, e) at h))
      | inr (p, e) ↦ (p, e, ground (arith, join_prefix-append p (trim_slashes name)))
    ]
  where
    stuck : Result.err denied ≡ ok stored → ⊥
    stuck e = cc

-- A token with `auto_prefix` reaches no stored name that its scope does not match, whatever name the
-- client sends.
pub resolve-allows_name :
    (scope : Scope) (res : Resource) (name stored : Text)
    → scope.auto_prefix ≡ true
    → resolve scope res name ≡ ok stored
    → allows_name scope (some res) (some stored) ≡ true
resolve-allows_name scope res name stored auto h =
    let (p, sole, e) = resolve-sole_prefix scope res name stored auto h in
    rw e (allows_name-sole_prefix scope res p (behind p (trim_slashes name)) sole)

abbrev leading : Text → ℕ
leading s = if starts_with s (slash ∷ []) then 1 else 0

length-map-dotted : (xs : Text) → length (map dotted xs) ≡ length xs
length-map-dotted [] = refl
length-map-dotted (x ∷ xs) = ground (arith, length-map-dotted xs)

leading-canonical :
    (p rest : Text)
    → ends_with_slash p ≡ true
    → leading (p ++ rest) + length (canonical p) ≡ length p
unfolding canonical without_slash starts_with ends_with_slash
leading-canonical [] rest h = cc
leading-canonical (c ∷ p) rest h = elim (Bool-cases (c == slash)) [
  | inl e ↦ rw e (ground (arith, length-map-dotted p))
  | inr e ↦ rw e (ground (arith, length-map-dotted p))
]

stripped-append :
    (res : Resource) (p rest : Text)
    → ends_with_slash p ≡ true
    → stripped res (p ++ rest) p ≡ some rest
unfolding stripped strip_canonical_prefix strip_prefix
stripped-append stream p rest h =
    rw (canonical-append p rest, leading-canonical p rest h) (ap some (drop-append_length p rest))
stripped-append token p rest h =
    rw (starts_with-append p rest) (ap some (drop-append_length p rest))
stripped-append group p rest h =
    rw (starts_with-append p rest) (ap some (drop-append_length p rest))

-- Behind a prefix that ends with a slash, a client reads back the name that it sent, less the leading
-- slashes of that.
pub strip-resolve :
    (scope : Scope) (res : Resource) (p name stored : Text)
    → scope.auto_prefix ≡ true
    → sole_prefix (set_of scope res) ≡ some p
    → ends_with_slash p ≡ true
    → resolve scope res name ≡ ok stored
    → strip scope res stored ≡ trim_slashes name
unfolding strip
strip-resolve scope res p name stored auto sole slashed h =
    let (q, sole_q, e) = resolve-sole_prefix scope res name stored auto h in
    let same : q ≡ p = cc (sole, sole_q) in
    let behind_p : behind p (trim_slashes name) ≡ trim_slashes name = rw slashed refl in
    let whole : stored ≡ p ++ trim_slashes name = rw (same, behind_p) at e in
    rw (auto, sole, whole, stripped-append res p (trim_slashes name) slashed) refl
