-- ===== src/Auth/Name.antt =====
-- picomq/pico-common/src/name.rs: one form for the two spellings of a name. The characters that it
-- looks at are ASCII, so the code's walk over the characters is a walk over the bytes.
use picomq.Prelude.{
  ℕ, ◌+◌, ◌≡◌, Bool, true, false, ◌&&◌, Option, none, some, [], ◌∷◌, nat_ord, bytes_ord, ◌==◌,
  if◌then◌else◌, map, length, drop, Text, starts_with, arith,
}

abbrev pub slash : ℕ
slash = 47

abbrev pub dot : ℕ
dot = 46

-- `strip_prefix('/').unwrap_or(spelling)`
unfoldable pub without_slash : Text → Text
without_slash [] = []
without_slash (c ∷ cs) = if c == slash then cs else c ∷ cs

abbrev pub dotted : ℕ → ℕ
dotted c = if c == slash then dot else c

unfoldable pub canonical : Text → Text
unfolding without_slash
canonical spelling = map dotted (without_slash spelling)

unfoldable pub canonical_chars : Text → Text
unfolding without_slash
canonical_chars spelling = map dotted (without_slash spelling)

unfoldable pub canonical_eq : Text → Text → Bool
unfolding canonical_chars
canonical_eq a b = canonical_chars a == canonical_chars b

-- `prefix.all(|expected| name.next() == Some(expected))`
unfoldable pub all_next : Text → Text → Bool
all_next [] name = true
all_next (e ∷ es) [] = false
all_next (e ∷ es) (n ∷ ns) = n == e && all_next es ns

unfoldable pub canonical_starts_with : Text → Text → Bool
unfolding canonical_chars all_next
canonical_starts_with spelling prefix = all_next (canonical_chars prefix) (canonical_chars spelling)

unfoldable pub strip_canonical_prefix : Text → Text → Option Text
unfolding canonical
strip_canonical_prefix spelling prefix =
    let p = canonical prefix in
    let offset : ℕ = if starts_with spelling (slash ∷ []) then 1 else 0 in
    if starts_with (canonical spelling) p then some (drop (offset + length p) spelling) else none

pub all_next-starts_with : (p n : Text) → all_next p n ≡ starts_with n p
unfolding all_next starts_with
all_next-starts_with [] n = ground arith
all_next-starts_with (e ∷ es) [] = ground arith
all_next-starts_with (e ∷ es) (n ∷ ns) = ground (arith, all_next-starts_with es ns)

-- The comparisons that build no string agree with those of the canonical forms.
pub canonical_starts_with-canonical :
    (s p : Text) → canonical_starts_with s p ≡ starts_with (canonical s) (canonical p)
unfolding canonical_starts_with canonical_chars canonical
canonical_starts_with-canonical s p = all_next-starts_with _ _
