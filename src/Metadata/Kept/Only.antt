-- ===== src/Metadata/Kept/Only.antt =====
-- Which fields each write of the state may change, as an equation: `Only f s t` says that `t` is
-- `s` with the fields that `f` names, read from `t`.
use picomq.Prelude.{
  ℕ, ◌≡◌, refl, ◌∙◌, ap, Option, none, some, List, [], ◌∷◌, nat_ord, int_ord, pair_ord, bytes_ord,
  ◌==◌, ℤ, for_each, Option-cases, Bool-cases, inl, inr, not, ◌&&◌,
}
use picomq.Engine.{CompactOperations, StreamObject, StreamOffsetRange, StreamState, opened, closed}
use picomq.OrdMap.{get, remove, contains_key}
use picomq.Metadata.Command.{Text, Bytes}
use picomq.Metadata.State.{
  StreamRow, StreamSetObjectRow, StreamObjectRow, StreamOffsetKey, MetadataState, index, index_at,
  unindex, reindex, same_place, put_stream, unindex_removed, remove_stream, no_node, node_key,
}
use picomq.Metadata.State.Objects.{
  remove_stream_bytes, put_range, remove_range, sized_ranges, drop_stream_set_object,
  drop_sso_found, remove_stream_set_object, put_stream_set_object, drop_row_found, drop_key_found,
  remove_stream_object, insert_row, insert_first, put_stream_object, unprepare, remove_prepared,
  undestroy, remove_destroyed, put_destroyed,
}
use picomq.Metadata.State.Kv.{remove_found, remove_kv}
use picomq.Metadata.Apply.Streams.{mark_destroyed}
use picomq.Metadata.Apply.Objects.{insert_stream_object}

abbrev pub Only :
    (MetadataState → MetadataState → MetadataState) → MetadataState → MetadataState → Type 0
Only f s t = t ≡ f s t

abbrev pub streams_of : MetadataState → MetadataState → MetadataState
streams_of s t = record s {
  streams = t.streams;
  opening_by_node = t.opening_by_node;
  placed_by_node = t.placed_by_node;
  streams_by_node = t.streams_by_node;
}

abbrev pub objects_of : MetadataState → MetadataState → MetadataState
objects_of s t = record s {
  streams = t.streams;
  stream_set_objects = t.stream_set_objects;
  sso_ranges = t.sso_ranges;
  sso_by_node = t.sso_by_node;
  stream_objects = t.stream_objects;
  stream_object_ids = t.stream_object_ids;
  stored_bytes = t.stored_bytes;
}

abbrev pub leases_of : MetadataState → MetadataState → MetadataState
leases_of s t = record s { prepared = t.prepared; prepared_by_deadline = t.prepared_by_deadline }

abbrev pub queue_of : MetadataState → MetadataState → MetadataState
queue_of s t = record s {
  mark_destroyed = t.mark_destroyed;
  destroyed_by_id = t.destroyed_by_id;
  next_destroyed_seq = t.next_destroyed_seq;
}

abbrev pub kv_of : MetadataState → MetadataState → MetadataState
kv_of s t = record s { kv = t.kv; kv_bytes = t.kv_bytes }

index-Only : (s : MetadataState) (row : StreamRow) → Only streams_of s (index s row)
unfolding index
index-Only s row = go row.state
  where
    go : (state : StreamState) → Only streams_of s (index_at state s row)
    go opened = refl
    go closed = elim (Bool-cases (row.node_id == no_node)) [ inl e ↦ rw e refl | inr e ↦ rw e refl ]

unindex-Only : (s : MetadataState) (row : StreamRow) → Only streams_of s (unindex s row)
unfolding unindex
unindex-Only s row =
    elim (Bool-cases (
      not (contains_key (node_key row) s.opening_by_node)
      && not (contains_key (node_key row) s.placed_by_node))) [
        | inl e ↦ rw e refl
        | inr e ↦ rw e refl
      ]

reindex-Only :
    (previous : Option StreamRow) (s : MetadataState) (row : StreamRow)
    → Only streams_of s (reindex previous s row)
reindex-Only none s row = index-Only s row
reindex-Only (some old) s row = elim (Bool-cases (same_place old row)) [
  | inl e ↦ rw e refl
  | inr e ↦
      let t = unindex s old in
      rw e (index-Only t row ∙ ap (λ x. streams_of x (index t row)) (unindex-Only s old))
]

pub put_stream-Only : (s : MetadataState) (row : StreamRow) → Only streams_of s (put_stream s row)
unfolding put_stream
put_stream-Only s row = reindex-Only (get row.stream_id s.streams) _ _

unindex_removed-Only :
    (previous : Option StreamRow) (s : MetadataState)
    → Only streams_of s (unindex_removed previous s)
unindex_removed-Only none s = refl
unindex_removed-Only (some old) s = unindex-Only s old

pub remove_stream-Only : (s : MetadataState) (i : ℕ) → Only streams_of s (remove_stream s i)
unfolding remove_stream
remove_stream-Only s i = unindex_removed-Only (get i s.streams) _

for_each-Only {ℓ} :
    {A : Type ℓ} (f : MetadataState → A → MetadataState)
    → ((s : MetadataState) (a : A) → Only objects_of s (f s a))
    → (s : MetadataState) (xs : List A) → Only objects_of s (for_each f s xs)
for_each-Only f step s [] = refl
for_each-Only f step s (x ∷ xs) =
    for_each-Only f step (f s x) xs ∙ ap (λ t. objects_of t (for_each f (f s x) xs)) (step s x)

put_range-Only :
    (i : ℕ) (s : MetadataState) (e : StreamOffsetRange × ℕ) → Only objects_of s (put_range i s e)
unfolding put_range
put_range-Only i s (r, size) = refl

remove_range-Only :
    (i : ℕ) (s : MetadataState) (e : StreamOffsetRange × ℕ) → Only objects_of s (remove_range i s e)
unfolding remove_range
remove_range-Only i s (r, size) = refl

remove_ranges-Only :
    (i : ℕ) (s : MetadataState) (row : StreamSetObjectRow)
    → Only objects_of s (drop_stream_set_object s i row)
unfolding drop_stream_set_object
remove_ranges-Only i s row =
    let taken = record s { stream_set_objects = remove i s.stream_set_objects } in
    ap (λ t. objects_of t (drop_stream_set_object s i row))
      (for_each-Only (remove_range i) (remove_range-Only i) taken (sized_ranges row))

drop_sso_found-Only :
    (s : MetadataState) (i : ℕ) (found : Option StreamSetObjectRow)
    → Only objects_of s (drop_sso_found s i found)
drop_sso_found-Only s i none = refl
drop_sso_found-Only s i (some row) = remove_ranges-Only i s row

pub remove_stream_set_object-Only :
    (s : MetadataState) (i : ℕ) → Only objects_of s (remove_stream_set_object s i)
unfolding remove_stream_set_object
remove_stream_set_object-Only s i = drop_sso_found-Only s i (get i s.stream_set_objects)

pub put_stream_set_object-Only :
    (s : MetadataState) (row : StreamSetObjectRow) → Only objects_of s (put_stream_set_object s row)
unfolding put_stream_set_object
put_stream_set_object-Only s row =
    let i = row.object.object_id in
    let t = remove_stream_set_object s i in
    let u = put_stream_set_object s row in
    ap (λ x. objects_of x u) (for_each-Only (put_range i) (put_range-Only i) t (sized_ranges row))
    ∙ ap (λ x. objects_of x u) (remove_stream_set_object-Only s i)

drop_row_found-Only :
    (s : MetadataState) (key : StreamOffsetKey) (found : Option StreamObjectRow)
    → Only objects_of s (drop_row_found s key found)
unfolding remove_stream_bytes
drop_row_found-Only s key none = refl
drop_row_found-Only s key (some row) = refl

drop_key_found-Only :
    (s : MetadataState) (i : ℕ) (found : Option StreamOffsetKey)
    → Only objects_of s (drop_key_found s i found)
drop_key_found-Only s i none = refl
drop_key_found-Only s i (some key) =
    drop_row_found-Only (record s { stream_object_ids = remove i s.stream_object_ids }) key
      (get key s.stream_objects)

pub remove_stream_object-Only :
    (s : MetadataState) (i : ℕ) → Only objects_of s (remove_stream_object s i)
unfolding remove_stream_object
remove_stream_object-Only s i = drop_key_found-Only s i (get i s.stream_object_ids)

insert_first-Only :
    (s : MetadataState) (row : StreamObjectRow) (ranges : List StreamOffsetRange)
    → Only objects_of s (insert_first s row ranges)
unfolding insert_row
insert_first-Only s row [] = refl
insert_first-Only s row (r ∷ _) = refl

put_stream_object-Only :
    (s : MetadataState) (row : StreamObjectRow) → Only objects_of s (put_stream_object s row)
unfolding put_stream_object
put_stream_object-Only s row =
    let t = remove_stream_object s row.object.object_id in
    let u = insert_first t row row.object.offset_ranges in
    insert_first-Only t row row.object.offset_ranges
    ∙ ap (λ x. objects_of x u) (remove_stream_object-Only s row.object.object_id)

pub insert_stream_object-Only :
    (s : MetadataState) (o : StreamObject) (d n l : ℤ)
    → Only objects_of s (insert_stream_object s o d n l)
unfolding insert_stream_object
insert_stream_object-Only s o d n l = put_stream_object-Only s _

pub mark_destroyed-Only :
    (s : MetadataState) (i : ℕ) (op : CompactOperations) → Only queue_of s (mark_destroyed s i op)
unfolding mark_destroyed put_destroyed
mark_destroyed-Only s i op = elim (Option-cases (get i s.destroyed_by_id)) [
  | inl e ↦ rw (e, mark_destroyed) refl
  | inr (seq, e) ↦ rw (e, mark_destroyed) refl
]

undestroy-Only :
    (s : MetadataState) (i : ℕ) (found : Option ℕ) → Only queue_of s (undestroy s i found)
undestroy-Only s i none = refl
undestroy-Only s i (some seq) = refl

pub remove_destroyed-Only : (s : MetadataState) (i : ℕ) → Only queue_of s (remove_destroyed s i)
unfolding remove_destroyed
remove_destroyed-Only s i = undestroy-Only s i (get i s.destroyed_by_id)

unprepare-Only :
    (s : MetadataState) (i : ℕ) (found : Option ℤ) → Only leases_of s (unprepare s i found)
unprepare-Only s i none = refl
unprepare-Only s i (some deadline) = refl

pub remove_prepared-Only : (s : MetadataState) (i : ℕ) → Only leases_of s (remove_prepared s i)
unfolding remove_prepared
remove_prepared-Only s i = unprepare-Only s i (get i s.prepared)

remove_found-Only :
    (s : MetadataState) (key : Text) (found : Option Bytes)
    → Only kv_of s (remove_found s key found).0
remove_found-Only s key none = refl
remove_found-Only s key (some old) = refl

pub remove_kv-Only : (s : MetadataState) (key : Text) → Only kv_of s (remove_kv s key).0
unfolding remove_kv
remove_kv-Only s key = remove_found-Only s key (get key s.kv)
