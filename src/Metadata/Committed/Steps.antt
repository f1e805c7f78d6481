-- ===== src/Metadata/Committed/Steps.antt =====
-- picomq/pico-metadata/src/state.rs: what putting and removing objects do to the three tables of
-- committed objects.
use picomq.Prelude.{
  ℕ, ◌≡◌, ◌⊎◌, refl, ◌∙◌, ap, Bool, false, Option, none, some, List, [], ◌∷◌, arith, nat_ord,
  int_ord, pair_ord, ◌==◌, ℤ, for_each, map_or, Option-cases, inl, inr, if◌then◌else◌,
}
use picomq.Engine.{StreamObject, StreamOffsetRange, stream}
use picomq.OrdMap.{get, remove, insert, get-insert, get-remove, get_of_absent}
use picomq.Metadata.State.{StreamSetObjectRow, StreamObjectRow, StreamOffsetKey, MetadataState}
use picomq.Metadata.State.Objects.{
  put_range, remove_range, sized_ranges, add_stream_bytes, remove_stream_bytes,
  drop_stream_set_object, drop_sso_found, remove_stream_set_object, put_stream_set_object,
  remove_stream_object, insert_row, put_stream_object,
}
use picomq.Metadata.Apply.Objects.{insert_stream_object}
use picomq.Metadata.Apply.Commit.{object_key}

-- Two states with the same tables of committed objects.
pub record SameCommitted (s t : MetadataState) : Type 0 where
  pub sets : t.stream_set_objects ≡ s.stream_set_objects
  pub objects : t.stream_objects ≡ s.stream_objects
  pub ids : t.stream_object_ids ≡ s.stream_object_ids

for_each-SameCommitted {ℓ} :
    {A : Type ℓ} (f : MetadataState → A → MetadataState)
    → ((s : MetadataState) (a : A) → SameCommitted s (f s a))
    → (s : MetadataState) (xs : List A) → SameCommitted s (for_each f s xs)
for_each-SameCommitted f step s [] = record { sets = refl; objects = refl; ids = refl }
for_each-SameCommitted f step s (x ∷ xs) =
    let h = step s x in
    let k = for_each-SameCommitted f step (f s x) xs in
    record { sets = k.sets ∙ h.sets; objects = k.objects ∙ h.objects; ids = k.ids ∙ h.ids }

put_range-SameCommitted :
    (i : ℕ) (s : MetadataState) (e : StreamOffsetRange × ℕ) → SameCommitted s (put_range i s e)
unfolding put_range
put_range-SameCommitted i s (r, size) = record { sets = refl; objects = refl; ids = refl }

remove_range-SameCommitted :
    (i : ℕ) (s : MetadataState) (e : StreamOffsetRange × ℕ) → SameCommitted s (remove_range i s e)
unfolding remove_range
remove_range-SameCommitted i s (r, size) = record { sets = refl; objects = refl; ids = refl }

-- Removing a stream-set object.
pub remove_set-SameCommitted :
    (s : MetadataState) (i : ℕ)
    → SameCommitted
        (record s { stream_set_objects = remove i s.stream_set_objects })
        (drop_sso_found s i (get i s.stream_set_objects))
      ⊎ ((get i s.stream_set_objects ≡ none)
          × (drop_sso_found s i (get i s.stream_set_objects) ≡ s))
unfolding drop_stream_set_object
remove_set-SameCommitted s i = elim (Option-cases (get i s.stream_set_objects)) [
  | inl e ↦ inr (e, rw e refl)
  | inr (row, e) ↦
      let taken = record s { stream_set_objects = remove i s.stream_set_objects } in
      let k =
        for_each-SameCommitted (remove_range i) (remove_range-SameCommitted i) taken
          (sized_ranges row) in
      inl (rw e (record { sets = k.sets; objects = k.objects; ids = k.ids }))
]

pub get-remove_set :
    (s : MetadataState) (i j : ℕ)
    → get j (remove_stream_set_object s i).stream_set_objects
      ≡ (if j == i then none else get j s.stream_set_objects)
unfolding remove_stream_set_object
get-remove_set s i j = elim (remove_set-SameCommitted s i) [
  | inl k ↦ ap (get j) k.sets ∙ get-remove j i s.stream_set_objects
  | inr (e, same) ↦
      ap (λ (t : MetadataState). get j t.stream_set_objects) same
      ∙ ground (arith, e, nat_ord.eq_of_cmp j i)
]

pub remove_set-others :
    (s : MetadataState) (i : ℕ)
    → ((remove_stream_set_object s i).stream_objects ≡ s.stream_objects)
      × ((remove_stream_set_object s i).stream_object_ids ≡ s.stream_object_ids)
unfolding remove_stream_set_object
remove_set-others s i = elim (remove_set-SameCommitted s i) [
  | inl k ↦ (k.objects, k.ids)
  | inr (e, same) ↦ (
    ap (λ (t : MetadataState). t.stream_objects) same,
    ap (λ (t : MetadataState). t.stream_object_ids) same,
  )
]

-- Putting a stream-set object.
pub put_set-SameCommitted :
    (s : MetadataState) (row : StreamSetObjectRow)
    → let t = remove_stream_set_object s row.object.object_id in
      SameCommitted
        (record t { stream_set_objects = insert row.object.object_id row t.stream_set_objects })
        (put_stream_set_object s row)
unfolding put_stream_set_object
put_set-SameCommitted s row =
    let i = row.object.object_id in
    let t = remove_stream_set_object s i in
    let k = for_each-SameCommitted (put_range i) (put_range-SameCommitted i) t (sized_ranges row) in
    record { sets = ap (insert i row) k.sets; objects = k.objects; ids = k.ids }

-- Removing a stream object.
pub get-ids-remove_object :
    (s : MetadataState) (i j : ℕ)
    → get j (remove_stream_object s i).stream_object_ids
      ≡ (if j == i then none else get j s.stream_object_ids)
unfolding remove_stream_object remove_stream_bytes
get-ids-remove_object s i j = elim (Option-cases (get i s.stream_object_ids)) [
  | inl e ↦ rw (e, remove_stream_object) (ground (arith, e, nat_ord.eq_of_cmp j i))
  | inr (key, e) ↦ elim (Option-cases (get key s.stream_objects)) [
    | inl f ↦ rw (e, remove_stream_object) (rw f (get-remove j i s.stream_object_ids))
    | inr (row, f) ↦ rw (e, remove_stream_object) (rw f (get-remove j i s.stream_object_ids))
  ]
]

abbrev pub is_key : StreamOffsetKey → Option StreamOffsetKey → Bool
is_key key = map_or false (λ (k : StreamOffsetKey). key == k)

pub get-objects-remove_object :
    (s : MetadataState) (i : ℕ) (key : StreamOffsetKey)
    → get key (remove_stream_object s i).stream_objects
      ≡ (if is_key key (get i s.stream_object_ids) then none else get key s.stream_objects)
unfolding remove_stream_object remove_stream_bytes
get-objects-remove_object s i key = elim (Option-cases (get i s.stream_object_ids)) [
  | inl e ↦ rw (e, remove_stream_object) refl
  | inr (k, e) ↦ elim (Option-cases (get k s.stream_objects)) [
    | inl f ↦ rw (e, remove_stream_object) (rw f (get_of_absent key k s.stream_objects f))
    | inr (row, f) ↦ rw (e, remove_stream_object) (rw f (get-remove key k s.stream_objects))
  ]
]

pub remove_object-sets :
    (s : MetadataState) (i : ℕ)
    → (remove_stream_object s i).stream_set_objects ≡ s.stream_set_objects
unfolding remove_stream_object remove_stream_bytes
remove_object-sets s i = elim (Option-cases (get i s.stream_object_ids)) [
  | inl e ↦ rw (e, remove_stream_object) refl
  | inr (k, e) ↦ elim (Option-cases (get k s.stream_objects)) [
    | inl f ↦ rw (e, remove_stream_object) (rw f refl)
    | inr (row, f) ↦ rw (e, remove_stream_object) (rw f refl)
  ]
]

-- The tables after a stream object is put.
pub record Inserted (s t : MetadataState) (o : StreamObject) (row : StreamObjectRow) : Type 0 where
  pub sets : t.stream_set_objects ≡ s.stream_set_objects
  pub ids :
      (j : ℕ)
      → get j t.stream_object_ids
        ≡ (if j == o.object_id then some (object_key o) else get j s.stream_object_ids)
  pub objects :
      (key : StreamOffsetKey)
      → get key t.stream_objects ≡ (
          if key == object_key o
          then some row
          else if is_key key (get o.object_id s.stream_object_ids)
          then none
          else get key s.stream_objects)

-- The row that a commit writes for a stream object.
abbrev pub object_row : StreamObject → ℤ → ℤ → ℤ → StreamObjectRow
object_row o data_time_ms now_ms last_write_ms = record {
  object = record {
    object_id = o.object_id;
    object_type = stream;
    offset_ranges =
        record { stream_id = o.stream_id; start_offset = o.start_offset; end_offset = o.end_offset }
        ∷ [];
    object_size = o.object_size;
    attributes = o.attributes;
    committed_timestamp_ms = now_ms;
    data_timestamp_ms = data_time_ms;
  };
  last_write_ms = last_write_ms;
}

pub insert_stream_object-Inserted :
    (s : MetadataState) (o : StreamObject) (d n l : ℤ)
    → Inserted s (insert_stream_object s o d n l) o (object_row o d n l)
unfolding insert_stream_object put_stream_object insert_row add_stream_bytes
insert_stream_object-Inserted s o d n l =
    let t = remove_stream_object s o.object_id in
    record {
      sets = remove_object-sets s o.object_id;
      ids = λ j. ground (
        arith,
        get-insert j o.object_id (object_key o) t.stream_object_ids,
        get-ids-remove_object s o.object_id j,
        nat_ord.eq_of_cmp j o.object_id,
      );
      objects = λ key.
          get-insert key (object_key o) (object_row o d n l) t.stream_objects
          ∙ ap (λ x. if key == object_key o then some (object_row o d n l) else x)
              (get-objects-remove_object s o.object_id key);
    }
