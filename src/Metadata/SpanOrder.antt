-- ===== src/Metadata/SpanOrder.antt =====
-- picomq/pico-metadata/src/query.rs: `object_spans` lists the spans of live objects in offset order.
use native.Mathlib.Nat.{le_trans}
use mathlib.Core.Path.{subst}
use picomq.Prelude.{
  ℕ, ◌≤◌, ◌≡◌, ap, map_or, true, false, Option, none, some, List, [], ◌∷◌, arith, nat_ord, ltb, leb,
  map_option, keep_if, Bool-cases, inl, inr, All,
}
use picomq.OrdMap.{get}
use picomq.Metadata.State.{StreamRow, ObjectSpan, MetadataState}
use picomq.Metadata.Query.Spans.{insert_span, sort_spans, object_spans}

abbrev pub IsOrdered : List ObjectSpan → Type 0
IsOrdered [] = Unit
IsOrdered (x ∷ xs) = All (λ (y : ObjectSpan). x.start_offset ≤ y.start_offset) xs × IsOrdered xs

module _ (P : ObjectSpan → Type 0) where
  All-insert_span :
      (x : ObjectSpan) (xs : List ObjectSpan) → P x → All P xs → All P (insert_span x xs)
  unfolding insert_span
  All-insert_span x [] h k = (h, tt)
  All-insert_span x (y ∷ ys) h k = elim (Bool-cases (leb x.start_offset y.start_offset)) [
    | inl e ↦ rw (e, insert_span) (h, k)
    | inr e ↦ rw (e, insert_span) (k.0, All-insert_span x ys h k.1)
  ]

  All-sort_spans : (xs : List ObjectSpan) → All P xs → All P (sort_spans xs)
  unfolding sort_spans
  All-sort_spans [] h = tt
  All-sort_spans (x ∷ xs) h = All-insert_span x (sort_spans xs) h.0 (All-sort_spans xs h.1)

All-le :
    (x y : ℕ) (ys : List ObjectSpan)
    → x ≤ y
    → All (λ (z : ObjectSpan). y ≤ z.start_offset) ys
    → All (λ (z : ObjectSpan). x ≤ z.start_offset) ys
All-le x y [] h k = tt
All-le x y (z ∷ zs) h k = (le_trans h k.0, All-le x y zs h k.1)

le_of_leb : (x y : ℕ) → leb x y ≡ true → x ≤ y
le_of_leb x y h = ground arith

ge_of_leb : (x y : ℕ) → leb x y ≡ false → y ≤ x
ge_of_leb x y h = ground arith

insert_span-IsOrdered :
    (x : ObjectSpan) (xs : List ObjectSpan) → IsOrdered xs → IsOrdered (insert_span x xs)
unfolding insert_span
insert_span-IsOrdered x [] h = (tt, tt)
insert_span-IsOrdered x (y ∷ ys) h = elim (Bool-cases (leb x.start_offset y.start_offset)) [
  | inl e ↦
      let le = le_of_leb x.start_offset y.start_offset e in
      rw (e, insert_span) ((le, All-le x.start_offset y.start_offset ys le h.0), h)
  | inr e ↦
      rw (e, insert_span)
        (
          All-insert_span (λ (z : ObjectSpan). y.start_offset ≤ z.start_offset) x ys
              (ge_of_leb x.start_offset y.start_offset e) h.0,
          insert_span-IsOrdered x ys h.1,
        )
]

sort_spans-IsOrdered : (xs : List ObjectSpan) → IsOrdered (sort_spans xs)
unfolding sort_spans
sort_spans-IsOrdered [] = tt
sort_spans-IsOrdered (x ∷ xs) = insert_span-IsOrdered x (sort_spans xs) (sort_spans-IsOrdered xs)

keep_if-All :
    (start : ℕ) (xs : List ObjectSpan)
    → All
        (λ (x : ObjectSpan). ltb start x.end_offset ≡ true)
        (keep_if (λ (x : ObjectSpan). ltb start x.end_offset) xs)
keep_if-All start [] = tt
keep_if-All start (x ∷ xs) = elim (Bool-cases (ltb start x.end_offset)) [
  | inl e ↦ rw e (e, keep_if-All start xs)
  | inr e ↦ rw e (keep_if-All start xs)
]

some_injective : {A : Type 0} {a b : A} → some a ≡ some b → a ≡ b
some_injective {a = a} p = ap (map_or a (λ x. x)) p

sorted_live :
    (start : ℕ) (o : Option (List ObjectSpan)) (spans : List ObjectSpan)
    → map_option
        (λ (raw : List ObjectSpan).
          sort_spans (keep_if (λ (x : ObjectSpan). ltb start x.end_offset) raw))
        o
      ≡ some spans
    → IsOrdered spans × All (λ (x : ObjectSpan). ltb start x.end_offset ≡ true) spans
sorted_live start none spans e = cc
sorted_live start (some raw) spans e =
    subst
      (λ (xs : List ObjectSpan).
        IsOrdered xs × All (λ (x : ObjectSpan). ltb start x.end_offset ≡ true) xs)
      (some_injective e) (sort_spans-IsOrdered _, All-sort_spans _ _ (keep_if-All start raw))

-- The spans of the objects of a stream stand in the order of their start offsets, and each ends
-- past the start of the stream.
pub object_spans-IsOrdered :
    (s : MetadataState) (i : ℕ) (row : StreamRow) (spans : List ObjectSpan)
    → get i s.streams ≡ some row
    → object_spans s i ≡ some spans
    → IsOrdered spans × All (λ (x : ObjectSpan). ltb row.start_offset x.end_offset ≡ true) spans
unfolding object_spans
object_spans-IsOrdered s i row spans found result =
    sorted_live row.start_offset _ spans (rw (found, object_spans) at result)
