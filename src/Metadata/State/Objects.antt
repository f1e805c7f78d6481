-- ===== src/Metadata/State/Objects.antt =====
-- picomq/pico-metadata/src/state.rs: prepared, committed and destroyed objects with their indexes
-- and byte counts.
use picomq.Prelude.{
  ℕ, Option, none, some, List, [], ◌∷◌, nat_ord, pair_ord, int_ord, ℤ, add_u64, sub_u64, for_each,
  zip,
}
use picomq.Engine.{CompactOperations, StreamOffsetRange}
use picomq.OrdMap.{get, insert, remove, update}
use picomq.Metadata.State.{
  StreamRow, StreamSetObjectRow, StreamObjectRow, StreamOffsetKey, MetadataState,
}

unfoldable pub put_prepared : MetadataState → ℕ → ℤ → MetadataState
put_prepared s object_id deadline = record s {
  prepared = insert object_id deadline s.prepared;
  prepared_by_deadline = insert (deadline, object_id) tt s.prepared_by_deadline;
}

abbrev pub unprepare : MetadataState → ℕ → Option ℤ → MetadataState
unprepare s object_id none = s
unprepare s object_id (some deadline) = record s {
  prepared = remove object_id s.prepared;
  prepared_by_deadline = remove (deadline, object_id) s.prepared_by_deadline;
}

unfoldable pub remove_prepared : MetadataState → ℕ → MetadataState
remove_prepared s object_id = unprepare s object_id (get object_id s.prepared)

unfoldable pub add_stream_bytes : MetadataState → ℕ → ℕ → MetadataState
add_stream_bytes s stream_id bytes = record s {
  streams =
      update stream_id
        (λ (row : StreamRow). record row { stored_bytes = add_u64 row.stored_bytes bytes })
        s.streams;
}

unfoldable pub remove_stream_bytes : MetadataState → ℕ → ℕ → MetadataState
remove_stream_bytes s stream_id bytes = record s {
  streams =
      update stream_id
        (λ (row : StreamRow). record row { stored_bytes = sub_u64 row.stored_bytes bytes })
        s.streams;
}

-- `row.object.offset_ranges.iter().zip(&row.range_sizes)`
abbrev pub sized_ranges : StreamSetObjectRow → List (StreamOffsetRange × ℕ)
sized_ranges row = zip row.object.offset_ranges row.range_sizes

unfoldable pub put_range : ℕ → MetadataState → StreamOffsetRange × ℕ → MetadataState
unfolding add_stream_bytes
put_range object_id s (range, size) =
    add_stream_bytes
      (record s {
        sso_ranges =
            insert (range.stream_id, (range.start_offset, object_id)) (range.end_offset, size)
              s.sso_ranges;
      })
      range.stream_id size

unfoldable pub remove_range : ℕ → MetadataState → StreamOffsetRange × ℕ → MetadataState
unfolding remove_stream_bytes
remove_range object_id s (range, size) =
    remove_stream_bytes
      (record s {
        sso_ranges = remove (range.stream_id, (range.start_offset, object_id)) s.sso_ranges;
      })
      range.stream_id size

-- The rest of `remove_stream_set_object`, once the row is taken out of the table.
unfoldable pub drop_stream_set_object : MetadataState → ℕ → StreamSetObjectRow → MetadataState
unfolding remove_range
drop_stream_set_object s object_id row =
    let taken = record s { stream_set_objects = remove object_id s.stream_set_objects } in
    let s' = for_each (remove_range object_id) taken (sized_ranges row) in
    record s' {
      stored_bytes = sub_u64 s'.stored_bytes row.object.object_size;
      sso_by_node = remove (row.node_id, object_id) s'.sso_by_node;
    }

abbrev pub drop_sso_found : MetadataState → ℕ → Option StreamSetObjectRow → MetadataState
drop_sso_found s object_id none = s
drop_sso_found s object_id (some row) = drop_stream_set_object s object_id row

unfoldable pub remove_stream_set_object : MetadataState → ℕ → MetadataState
remove_stream_set_object s object_id =
    drop_sso_found s object_id (get object_id s.stream_set_objects)

unfoldable pub put_stream_set_object : MetadataState → StreamSetObjectRow → MetadataState
unfolding put_range
put_stream_set_object s row =
    let object_id = row.object.object_id in
    let s' =
      for_each (put_range object_id) (remove_stream_set_object s object_id) (sized_ranges row) in
    record s' {
      stored_bytes = add_u64 s'.stored_bytes row.object.object_size;
      sso_by_node = insert (row.node_id, object_id) tt s'.sso_by_node;
      stream_set_objects = insert object_id row s'.stream_set_objects;
    }

-- The rest of `remove_stream_object`, once the row is taken out of the table.
abbrev pub drop_row_found : MetadataState → StreamOffsetKey → Option StreamObjectRow → MetadataState
drop_row_found s key none = s
drop_row_found s key (some row) =
    let s' =
      remove_stream_bytes (record s { stream_objects = remove key s.stream_objects }) key.0
        row.object.object_size in
    record s' { stored_bytes = sub_u64 s'.stored_bytes row.object.object_size }

abbrev pub drop_key_found : MetadataState → ℕ → Option StreamOffsetKey → MetadataState
drop_key_found s object_id none = s
drop_key_found s object_id (some key) =
    drop_row_found (record s { stream_object_ids = remove object_id s.stream_object_ids }) key
      (get key s.stream_objects)

unfoldable pub remove_stream_object : MetadataState → ℕ → MetadataState
unfolding remove_stream_bytes
remove_stream_object s object_id = drop_key_found s object_id (get object_id s.stream_object_ids)

unfoldable pub insert_row : MetadataState → StreamObjectRow → StreamOffsetRange → MetadataState
unfolding add_stream_bytes
insert_row s row range =
    let object_id = row.object.object_id in
    let key : StreamOffsetKey = (range.stream_id, (range.start_offset, object_id)) in
    let s' = add_stream_bytes s range.stream_id row.object.object_size in
    record s' {
      stored_bytes = add_u64 s'.stored_bytes row.object.object_size;
      stream_object_ids = insert object_id key s'.stream_object_ids;
      stream_objects = insert key row s'.stream_objects;
    }

-- `row.object.offset_ranges[0]` panics on an object with no range; no caller passes one. The
-- model stops there.
abbrev pub insert_first : MetadataState → StreamObjectRow → List StreamOffsetRange → MetadataState
insert_first s row [] = s
insert_first s row (range ∷ _) = insert_row s row range

unfoldable pub put_stream_object : MetadataState → StreamObjectRow → MetadataState
unfolding insert_row
put_stream_object s row =
    insert_first (remove_stream_object s row.object.object_id) row row.object.offset_ranges

unfoldable pub put_destroyed : MetadataState → ℕ → ℕ → CompactOperations → MetadataState
put_destroyed s seq object_id op = record s {
  mark_destroyed = insert seq (object_id, op) s.mark_destroyed;
  destroyed_by_id = insert object_id seq s.destroyed_by_id;
}

abbrev pub undestroy : MetadataState → ℕ → Option ℕ → MetadataState
undestroy s object_id none = s
undestroy s object_id (some seq) = record s {
  destroyed_by_id = remove object_id s.destroyed_by_id;
  mark_destroyed = remove seq s.mark_destroyed;
}

unfoldable pub remove_destroyed : MetadataState → ℕ → MetadataState
remove_destroyed s object_id = undestroy s object_id (get object_id s.destroyed_by_id)
