-- ===== src/Metadata/Kept/Streams/Create.antt =====
-- `create_streams` is `create_stream` so many times, and keeps an invariant.
use mathlib.Core.Path.{subst}
use picomq.Prelude.{
  ℕ, zero, suc, ◌+◌, ◌-◌, ◌<◌, ◌≡◌, refl, ◌==◌, ltb, nat_ord, false, sym, ◌∙◌, ap, List, [], ◌∷◌,
  arith, u64_mod, for_each, range_from, add_u64,
}
use picomq.Metadata.State.{StreamRow, MetadataState, put_stream}
use picomq.Metadata.Error.{ok, ◌>>◌}
use picomq.Metadata.Command.{id}
use picomq.Metadata.Error.Ensures.{Ensures, Ensures-ok, Ensures-fail_if}
use picomq.Metadata.Apply.Streams.{
  fresh_stream, created, ids_from, max_create_streams, create_stream, create_streams,
}
use picomq.Metadata.Kept.{Kept}
use picomq.Metadata.Kept.Nodes.{After}

abbrev pub with_next : MetadataState → ℕ → MetadataState
with_next s n = record s { next_stream_id = n }

abbrev pub put_fresh : MetadataState → ℕ → MetadataState
put_fresh t stream_id = put_stream t (fresh_stream stream_id)

put_stream-with_next :
    (s : MetadataState) (n : ℕ) (row : StreamRow)
    → put_stream (with_next s n) row ≡ with_next (put_stream s row) n
unfolding put_stream
put_stream-with_next s n row = ground arith

-- Creating many streams and then advancing the next id.
creates-with_next :
    (s : MetadataState) (n : ℕ) (is : List ℕ)
    → for_each put_fresh (with_next s n) is ≡ with_next (for_each put_fresh s is) n
creates-with_next s n [] = refl
creates-with_next s n (i ∷ is) =
    rw (put_stream-with_next s n (fresh_stream i))
      (creates-with_next (put_stream s (fresh_stream i)) n is)

-- `create_stream`, `count` times.
unfoldable pub create_many : MetadataState → ℕ → MetadataState
create_many s zero = s
create_many s (suc n) = create_many (created s) n

next-created :
    (s : MetadataState)
    → s.next_stream_id + 1 < u64_mod
    → (created s).next_stream_id ≡ suc s.next_stream_id
unfolding put_stream
next-created s h = ground arith

-- The round of `create_streams` at the next id is `create_stream`, but for the counter.
creates-created :
    (s : MetadataState) (n : ℕ) (is : List ℕ)
    → with_next (for_each put_fresh (created s) is) n
      ≡ with_next (for_each put_fresh (put_fresh s s.next_stream_id) is) n
creates-created s n is =
    let next = s.next_stream_id in
    ap (λ (t : MetadataState). with_next (for_each put_fresh t is) n)
      (put_stream-with_next s (add_u64 next 1) (fresh_stream next))
    ∙ ap (λ (t : MetadataState). with_next t n)
        (creates-with_next (put_fresh s next) (add_u64 next 1) is)

creates-eq-many :
    (s : MetadataState) (m n : ℕ)
    → s.next_stream_id ≡ m
    → m + n < u64_mod
    → with_next (for_each put_fresh s (range_from m n)) (m + n) ≡ create_many s n
unfolding create_many
creates-eq-many s m zero e h = let p : m + 0 ≡ s.next_stream_id = omega arith in ap (with_next s) p
creates-eq-many s m (suc n) e h =
    let rest = range_from (suc m) n in
    let after = with_next (for_each put_fresh (created s) rest) in
    let e' : (created s).next_stream_id ≡ suc m = next-created s (omega arith) ∙ ap suc e in
    let k : m + suc n ≡ suc m + n = omega arith in
    ap (λ (i : ℕ). with_next (for_each put_fresh (put_fresh s i) rest) (m + suc n)) (sym e)
    ∙ sym (creates-created s (m + suc n) rest)
    ∙ ap after k
    ∙ creates-eq-many (created s) (suc m) n e' (omega arith)

add_u64-sub : (a n : ℕ) → a + n < u64_mod → add_u64 a n - a ≡ n
add_u64-sub a n h = omega arith

add_u64_fits : (a n : ℕ) → a + n < u64_mod → add_u64 a n ≡ a + n
add_u64_fits a n h = omega arith

-- The state that `create_streams` returns is that of `count` calls of `create_stream`.
pub create_streams-eq-many :
    (s : MetadataState) (count : ℕ)
    → s.next_stream_id + count < u64_mod
    → with_next
        (for_each put_fresh s (ids_from s.next_stream_id count))
        (add_u64 s.next_stream_id count)
      ≡ create_many s count
create_streams-eq-many s count h =
    rw (add_u64-sub s.next_stream_id count h, add_u64_fits s.next_stream_id count h)
      (creates-eq-many s s.next_stream_id count refl h)

-- Within its bounds, and where the ids do not run out, `create_streams` is `create_stream` as often
-- as asked, and it returns the first new id.
pub create_streams-repeats :
    (s : MetadataState) (count : ℕ)
    → (count == 0) ≡ false
    → ltb max_create_streams count ≡ false
    → s.next_stream_id + count < u64_mod
    → create_streams s count ≡ ok (create_many s count, id s.next_stream_id)
unfolding create_streams ◌>>◌
create_streams-repeats s count nonzero few fits =
    rw (nonzero, few)
      (ap (λ (t : MetadataState). ok (t, id s.next_stream_id))
        (create_streams-eq-many s count fits))

module _ {P : MetadataState → Type 0} (K : Kept P) where
  create_many-keeps :
      (s : MetadataState) (m n : ℕ)
      → s.next_stream_id ≡ m
      → m + n < u64_mod
      → P s
      → P (create_many s n)
  unfolding create_many
  create_many-keeps s m zero e fits h = h
  create_many-keeps s m (suc n) e fits h =
      create_many-keeps (created s) (suc m) n (next-created s (omega arith) ∙ ap suc e)
        (omega arith) (K.create s (omega arith) h)

  pub create_stream-keeps :
      (s : MetadataState)
      → s.next_stream_id + 1 < u64_mod
      → P s
      → Ensures (After P) (create_stream s)
  unfolding create_stream
  create_stream-keeps s fits h = Ensures-ok (K.create s fits h)

  pub create_streams-keeps :
      (s : MetadataState) (count : ℕ)
      → s.next_stream_id + count < u64_mod
      → P s
      → Ensures (After P) (create_streams s count)
  unfolding create_streams
  create_streams-keeps s count fits h = Ensures-fail_if _ _ _ λ _. Ensures-fail_if _ _ _ λ _.
      Ensures-ok (
        subst P (sym (create_streams-eq-many s count fits))
          (create_many-keeps s s.next_stream_id count refl fits h))
