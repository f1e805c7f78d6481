-- ===== src/Metadata/Apply/Objects.antt =====
-- picomq/pico-metadata/src/apply.rs: leases of ids, prepared objects, the destroyed queue, and the
-- checks and steps that both kinds of commit share.
use picomq.Prelude.{
  ℕ, Bool, true, false, not, Option, none, some, List, [], ◌∷◌, int_ord, nat_ord, pair_ord, ◌==◌,
  ltb, leb, ℤ, pos, max_ℤ, u64_max, add_u64, add_i64, map_or, if◌then◌else◌, zip, length, is_empty,
  for_each,
}
use picomq.Engine.{CompactOperations, delete, stream, StreamObject}
use picomq.OrdMap.{get, contains_key, scan, keys_of}
use picomq.Metadata.Error.{Result, ok, err, ◌>>=◌, ◌>>◌, fail_if, unexpected}
use picomq.Metadata.Command.{MetadataResult, unit, id}
use picomq.Metadata.State.{StreamOffsetKey, MetadataState, put_stream}
use picomq.Metadata.State.Objects.{
  put_prepared, remove_prepared, put_stream_object, remove_destroyed,
}
use picomq.Metadata.Apply.Nodes.{Outcome}
use picomq.Metadata.Apply.Streams.{require_stream, ids_from, mark_destroyed}

abbrev pub max_allocate_producer_ids : ℕ
max_allocate_producer_ids = 4096

unfoldable pub allocate_producer_ids : MetadataState → ℕ → Outcome
allocate_producer_ids s count = do
  fail_if (count == 0) unexpected
  fail_if (ltb max_allocate_producer_ids count) unexpected
  let first = s.next_producer_id
  ok (record s { next_producer_id = add_u64 first count }, id first)

unfoldable pub prepare_object : MetadataState → ℕ → ℤ → ℤ → Outcome
prepare_object s count ttl_ms now_ms = do
  fail_if (count == 0) unexpected
  let first = s.next_object_id
  let deadline = add_i64 now_ms (max_ℤ ttl_ms (pos 0))
  ok (
    for_each (λ t object_id. put_prepared t object_id deadline)
        (record s { next_object_id = add_u64 first count }) (ids_from first count),
    id first,
  )

unfoldable pub advance_end_offset : MetadataState → ℕ → ℕ → ℕ → Bool → Result MetadataState
unfolding require_stream
advance_end_offset s stream_id start_offset end_offset true = do
  row ← require_stream s stream_id
  fail_if (ltb row.end_offset end_offset) unexpected
  fail_if (ltb start_offset row.start_offset) unexpected
  ok s
advance_end_offset s stream_id start_offset end_offset false = do
  row ← require_stream s stream_id
  fail_if (not (row.end_offset == start_offset)) unexpected
  ok (put_stream s (record row { end_offset = end_offset }))

unfoldable pub mark_destroy_objects :
    MetadataState → List ℕ → List CompactOperations → Result MetadataState
unfolding mark_destroyed
mark_destroy_objects s ids ops =
    if is_empty ids
    then ok s
    else if is_empty ops
    then ok (for_each (λ t object_id. mark_destroyed t object_id delete) s ids)
    else if not (length ops == length ids)
    then err unexpected
    else ok (for_each (λ t (e : ℕ × CompactOperations). mark_destroyed t e.0 e.1) s (zip ids ops))

unfoldable pub stream_object_committed : MetadataState → ℕ → ℕ → Bool
stream_object_committed s stream_id object_id =
    map_or false (λ (key : StreamOffsetKey). key.0 == stream_id) (get object_id s.stream_object_ids)

-- `new_key != Some(existing)`
abbrev pub another_key : Option StreamOffsetKey → StreamOffsetKey → Bool
another_key none existing = true
another_key (some key) existing = not (key == existing)

unfoldable pub check_object_id_free : MetadataState → ℕ → Option StreamOffsetKey → Result (Unit {0})
check_object_id_free s object_id new_key = do
  fail_if (contains_key object_id s.stream_set_objects) unexpected
  fail_if (map_or false (another_key new_key) (get object_id s.stream_object_ids)) unexpected

unfoldable pub insert_stream_object : MetadataState → StreamObject → ℤ → ℤ → ℤ → MetadataState
insert_stream_object s stream_object data_time_ms now_ms last_write_ms =
    put_stream_object s (record {
      object = record {
        object_id = stream_object.object_id;
        object_type = stream;
        offset_ranges =
            record {
              stream_id = stream_object.stream_id;
              start_offset = stream_object.start_offset;
              end_offset = stream_object.end_offset;
            }
            ∷ [];
        object_size = stream_object.object_size;
        attributes = stream_object.attributes;
        committed_timestamp_ms = now_ms;
        data_timestamp_ms = data_time_ms;
      };
      last_write_ms = last_write_ms;
    })

-- The deadline index up to `(now_ms, u64::MAX)`.
unfoldable pub expired_keys : MetadataState → ℤ → List (ℤ × ℕ)
expired_keys s now_ms =
    keys_of (scan (λ (e : (ℤ × ℕ) × Unit {0}). leb e.0 (now_ms, u64_max)) s.prepared_by_deadline)

unfoldable pub expire_prepared_objects : MetadataState → ℤ → Outcome
unfolding expired_keys
expire_prepared_objects s now_ms =
    let expired = expired_keys s now_ms in
    ok (
      for_each (λ t (key : ℤ × ℕ). remove_prepared t key.1) s expired,
      MetadataResult.count (length expired),
    )

unfoldable pub clean_destroyed_objects : MetadataState → List ℕ → Outcome
clean_destroyed_objects s object_ids = ok (for_each remove_destroyed s object_ids, unit)
