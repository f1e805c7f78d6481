-- ===== src/Metadata/Apply/Commit.antt =====
-- picomq/pico-metadata/src/apply.rs: the commit of a stream-set object with its stream objects, and
-- that of a stream-object compaction. `noop_object_id` is the engine's `NOOP_OBJECT_ID`.
use picomq.Prelude.{
  ℕ, Bool, false, not, ◌&&◌, none, some, List, [], ◌∷◌, int_ord, nat_ord, pair_ord, ◌==◌, ltb, ℤ,
  max_ℤ, min_ℤ, as_i64, map_or, if◌then◌else◌, map, filter_map, is_empty, all_of, for_each,
}
use picomq.Engine.{
  delete, stream_set, StreamOffsetRange, ObjectStreamRange, StreamObject,
  CommitStreamSetObjectRequest, CompactStreamObjectRequest,
}
use picomq.OrdMap.{get, contains_key}
use picomq.Metadata.Error.{
  Result, ok, err, ◌>>=◌, ◌>>◌, fail_if, expired_epoch, redundant, unexpected,
}
use picomq.Metadata.Command.{unit}
use picomq.Metadata.State.{StreamSetObjectRow, StreamObjectRow, StreamOffsetKey, MetadataState}
use picomq.Metadata.State.Objects.{
  remove_prepared, put_stream_set_object, remove_stream_set_object, remove_stream_object,
}
use picomq.Metadata.Apply.Nodes.{Outcome}
use picomq.Metadata.Apply.Streams.{require_stream, mark_destroyed}
use picomq.Metadata.Apply.Objects.{
  advance_end_offset, mark_destroy_objects, stream_object_committed, check_object_id_free,
  insert_stream_object,
}

-- `require` on every compacted id, in order.
unfoldable pub find_sources : MetadataState → List ℕ → Result (List StreamSetObjectRow)
find_sources s [] = ok []
find_sources s (object_id ∷ rest) = do
  let found = find_sources s rest
  elim (get object_id s.stream_set_objects) [
    | none ↦ err unexpected
    | some row ↦ (do rows ← found; ok (row ∷ rows))
  ]

unfoldable pub data_time : ℤ → List StreamSetObjectRow → ℤ
data_time now_ms sources =
    for_each (λ t (row : StreamSetObjectRow). min_ℤ t row.object.data_timestamp_ms) now_ms sources

-- `max().unwrap_or(now_ms)`
unfoldable pub latest : ℤ → List ℤ → ℤ
latest now_ms [] = now_ms
latest now_ms (t ∷ ts) = for_each max_ℤ t ts

unfoldable pub latest_write : ℤ → List StreamSetObjectRow → ℤ
unfolding latest
latest_write now_ms sources =
    latest now_ms (map (λ (row : StreamSetObjectRow). row.last_write_ms) sources)

-- `remove_stream_set_object(id); mark_destroyed(id, Delete)`
unfoldable pub destroy_stream_set_object : MetadataState → ℕ → MetadataState
unfolding mark_destroyed
destroy_stream_set_object s object_id =
    mark_destroyed (remove_stream_set_object s object_id) object_id delete

unfoldable pub advance_ranges : MetadataState → List ObjectStreamRange → Bool → Result MetadataState
advance_ranges s [] compact = ok s
advance_ranges s (range ∷ rest) compact = do
  s' ← advance_end_offset s range.stream_id range.start_offset range.end_offset compact
  advance_ranges s' rest compact

-- The row that a commit writes for its stream-set object.
unfoldable pub committed_row : ℤ → CommitStreamSetObjectRequest → ℤ → ℤ → ℤ → StreamSetObjectRow
committed_row node_id request now_ms data_time_ms last_write_ms = record {
  node_id = node_id;
  object = record {
    object_id = request.object_id;
    object_type = stream_set;
    offset_ranges =
        map
          (λ (r : ObjectStreamRange).
            let range : StreamOffsetRange = record {
              stream_id = r.stream_id;
              start_offset = r.start_offset;
              end_offset = r.end_offset;
            } in
            range)
          request.stream_ranges;
    object_size = request.object_size;
    attributes = request.attributes;
    committed_timestamp_ms = now_ms;
    data_timestamp_ms = data_time_ms;
  };
  range_sizes = map (λ (r : ObjectStreamRange). r.size) request.stream_ranges;
  last_write_ms = last_write_ms;
}

unfoldable pub commit_set :
    MetadataState → CommitStreamSetObjectRequest → Bool → StreamSetObjectRow → Result MetadataState
commit_set s request compact row = do
  check_object_id_free s request.object_id none
  s' ← advance_ranges (remove_prepared s request.object_id) request.stream_ranges compact
  ok (put_stream_set_object s' row)

abbrev pub object_key : StreamObject → StreamOffsetKey
object_key o = (o.stream_id, (o.start_offset, o.object_id))

-- One round of the loop over the stream objects of a commit.
unfoldable pub commit_object :
    MetadataState → StreamObject → Bool → ℤ → ℤ → ℤ → Result MetadataState
commit_object s o compact data_time_ms now_ms last_write_ms = do
  check_object_id_free s o.object_id (some (object_key o))
  s' ←
      advance_end_offset (remove_prepared s o.object_id) o.stream_id o.start_offset o.end_offset
        compact
  ok (insert_stream_object s' o data_time_ms now_ms last_write_ms)

unfoldable pub commit_objects :
    MetadataState → List StreamObject → Bool → ℤ → ℤ → ℤ → Result MetadataState
commit_objects s [] compact data_time_ms now_ms last_write_ms = ok s
commit_objects s (o ∷ rest) compact data_time_ms now_ms last_write_ms = do
  s' ← commit_object s o compact data_time_ms now_ms last_write_ms
  commit_objects s' rest compact data_time_ms now_ms last_write_ms

-- The latest write time of the sources of a stream-object compaction.
unfoldable pub sources_write_time : MetadataState → List ℕ → ℤ → ℤ
unfolding latest
sources_write_time s source_ids now_ms = latest now_ms (
    map (λ (row : StreamObjectRow). row.last_write_ms)
      (filter_map (λ (key : StreamOffsetKey). get key s.stream_objects)
        (filter_map (λ (source_id : ℕ). get source_id s.stream_object_ids) source_ids)))

-- One round of the loop that removes the sources of a compaction.
unfoldable pub remove_source : ℕ → MetadataState → ℕ → MetadataState
remove_source stream_id s source_id =
    if map_or false (λ (key : StreamOffsetKey). key.0 == stream_id)
      (get source_id s.stream_object_ids)
    then remove_stream_object s source_id
    else s

abbrev pub replacement : CompactStreamObjectRequest → StreamObject
replacement request = record {
  object_id = request.object_id;
  object_size = request.object_size;
  stream_id = request.stream_id;
  start_offset = request.start_offset;
  end_offset = request.end_offset;
  attributes = request.attributes;
}

module _ (noop_object_id : ℕ) where
  unfoldable pub redundant_commit_check :
      MetadataState → CommitStreamSetObjectRequest → Result (Unit {0})
  redundant_commit_check s request =
      if not (request.object_id == noop_object_id)
      then fail_if (contains_key request.object_id s.stream_set_objects) redundant
      else if is_empty request.stream_objects
      then ok tt
      else fail_if
          (all_of (λ (o : StreamObject). stream_object_committed s o.stream_id o.object_id)
            request.stream_objects)
          redundant

  -- `commit_stream_set_object` after its sources are taken out.
  unfoldable pub commit_new :
      MetadataState
      → CommitStreamSetObjectRequest
      → Bool
      → StreamSetObjectRow
      → ℤ
      → ℤ
      → ℤ
      → Result MetadataState
  commit_new s request compact row data_time_ms now_ms last_write_ms = do
    s' ← if request.object_id == noop_object_id then ok s else commit_set s request compact row
    commit_objects s' request.stream_objects compact data_time_ms now_ms last_write_ms

  unfoldable pub commit_stream_set_object :
      MetadataState → ℤ → CommitStreamSetObjectRequest → ℤ → Outcome
  unfolding redundant_commit_check commit_new
  commit_stream_set_object s node_id request now_ms = do
    redundant_commit_check s request
    let compact = not (is_empty request.compacted_object_ids)
    sources ← find_sources s request.compacted_object_ids
    let data_time_ms = data_time now_ms sources
    let last_write_ms = latest_write now_ms sources
    s' ←
        commit_new (for_each destroy_stream_set_object s request.compacted_object_ids) request
          compact (committed_row node_id request now_ms data_time_ms last_write_ms) data_time_ms
          now_ms last_write_ms
    ok (s', unit)

  -- The replacement of a compaction, if it is not the no-op object.
  unfoldable pub insert_replacement : MetadataState → CompactStreamObjectRequest → ℤ → MetadataState
  insert_replacement s request now_ms =
      let s' = remove_prepared s request.object_id in
      if request.object_id == noop_object_id
      then s'
      else insert_stream_object s' (replacement request) now_ms now_ms
          (sources_write_time s' request.source_object_ids now_ms)

  -- A replacement wants a free object id.
  unfoldable pub check_replacement : MetadataState → CompactStreamObjectRequest → Result (Unit {0})
  check_replacement s request =
      if request.object_id == noop_object_id
      then ok tt
      else check_object_id_free s request.object_id (some (object_key (replacement request)))

  unfoldable pub compact_stream_object : MetadataState → CompactStreamObjectRequest → ℤ → Outcome
  unfolding insert_replacement check_replacement
  compact_stream_object s request now_ms = do
    let noop = request.object_id == noop_object_id
    let stream_id = request.stream_id
    fail_if (not noop && stream_object_committed s stream_id request.object_id) redundant
    row ← require_stream s stream_id
    fail_if (not (row.epoch == as_i64 request.stream_epoch))
        (expired_epoch stream_id (as_i64 request.stream_epoch))
    fail_if (ltb row.end_offset request.end_offset) unexpected
    fail_if (ltb request.start_offset row.start_offset) unexpected
    check_replacement s request
    let s₁ = insert_replacement s request now_ms
    let s₂ = for_each (remove_source stream_id) s₁ request.source_object_ids
    s₃ ← mark_destroy_objects s₂ request.source_object_ids request.operations
    ok (s₃, unit)
