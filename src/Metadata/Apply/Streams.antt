-- ===== src/Metadata/Apply/Streams.antt =====
-- picomq/pico-metadata/src/apply.rs: the life of a stream, from its creation to its deletion.
use picomq.Prelude.{
  ℕ, ◌-◌, Bool, false, not, ◌&&◌, none, some, List, int_ord, nat_ord, pair_ord, ◌==◌, ltb, leb, ℤ,
  negsuc, add_u64, map_or, if◌then◌else◌, take_while, keep_if, but_last, map, range_from, for_each,
}
use picomq.Engine.{closed, opened, is_opened, delete, CompactOperations, StreamOffsetRange}
use picomq.OrdMap.{get, insert, remove, remove_all, keys_of}
use picomq.Metadata.Error.{
  Result, ok, err, ◌>>=◌, ◌>>◌, fail_if, stream_not_exist, stream_not_closed, stream_fenced,
  expired_epoch, unexpected,
}
use picomq.Metadata.Command.{unit, id, stream}
use picomq.Metadata.State.{
  StreamRow, StreamObjectRow, StreamOffsetKey, MetadataState, to_stream_metadata, put_stream,
  remove_stream, no_node,
}
use picomq.Metadata.State.Objects.{put_destroyed, remove_stream_object}
use picomq.Metadata.Query.{stream_epochs, stream_range, first_range}
use picomq.Metadata.Apply.Nodes.{Outcome, check_owner}

unfoldable pub require_stream : MetadataState → ℕ → Result StreamRow
require_stream s stream_id = elim (get stream_id s.streams) [
  | none ↦ err (stream_not_exist stream_id)
  | some row ↦ ok row
]

-- A row as `create_stream` and `create_streams` write it.
abbrev pub fresh_stream : ℕ → StreamRow
fresh_stream stream_id = record {
  stream_id = stream_id;
  epoch = negsuc 0;
  start_offset = 0;
  end_offset = 0;
  state = closed;
  node_id = no_node;
  stored_bytes = 0;
}

-- The state after the next stream id is given out.
abbrev pub created : MetadataState → MetadataState
created s =
    put_stream (record s { next_stream_id = add_u64 s.next_stream_id 1 })
      (fresh_stream s.next_stream_id)

unfoldable pub create_stream : MetadataState → Outcome
create_stream s = ok (created s, id s.next_stream_id)

abbrev pub max_create_streams : ℕ
max_create_streams = 4096

-- `for id in first..first + count`: where the end wraps, the loop is empty.
abbrev pub ids_from : ℕ → ℕ → List ℕ
ids_from first count = range_from first (add_u64 first count - first)

unfoldable pub create_streams : MetadataState → ℕ → Outcome
create_streams s count = do
  fail_if (count == 0) unexpected
  fail_if (ltb max_create_streams count) unexpected
  let first = s.next_stream_id
  let s' = for_each (λ t stream_id. put_stream t (fresh_stream stream_id)) s (ids_from first count)
  ok (record s' { next_stream_id = add_u64 first count }, id first)

-- An open at the epoch that the stream is at.
unfoldable pub open_again : MetadataState → ℤ → ℕ → ℤ → StreamRow → Outcome
open_again s node_id stream_id epoch row =
    if is_opened row.state && row.node_id == node_id
    then ok (s, stream (to_stream_metadata row))
    else err (stream_fenced stream_id epoch)

-- An open at a newer epoch.
unfoldable pub open_newer : MetadataState → ℤ → ℕ → ℤ → StreamRow → Outcome
open_newer s node_id stream_id epoch row = do
  fail_if (is_opened row.state) (stream_not_closed stream_id)
  let opened_row = record row { epoch = epoch; state = opened; node_id = node_id }
  let s' = put_stream s opened_row
  ok (
    record s' { epochs = insert (stream_id, epoch) row.end_offset s'.epochs },
    stream (to_stream_metadata opened_row),
  )

unfoldable pub open_stream : MetadataState → ℤ → ℕ → ℤ → Outcome
unfolding require_stream open_again open_newer
open_stream s node_id stream_id epoch = do
  row ← require_stream s stream_id
  fail_if (ltb epoch row.epoch) (stream_fenced stream_id epoch)
  if row.epoch == epoch
      then open_again s node_id stream_id epoch row
      else open_newer s node_id stream_id epoch row

unfoldable pub mark_destroyed : MetadataState → ℕ → CompactOperations → MetadataState
mark_destroyed s object_id op = elim (get object_id s.destroyed_by_id) [
  | some seq ↦ put_destroyed s seq object_id op
  | none ↦
      put_destroyed (record s { next_destroyed_seq = add_u64 s.next_destroyed_seq 1 })
        s.next_destroyed_seq object_id op
]

-- `remove_stream_object(key.2); mark_destroyed(key.2, Delete)`
unfoldable pub destroy_stream_object : MetadataState → StreamOffsetKey → MetadataState
unfolding mark_destroyed
destroy_stream_object s key = mark_destroyed (remove_stream_object s key.1.1) key.1.1 delete

-- The epochs that a trim forgets: those covered by the new start, but the last of them.
unfoldable pub older_epochs : MetadataState → ℕ → ℕ → List (ℕ × ℤ)
unfolding stream_epochs
older_epochs s stream_id new_start_offset =
    map (λ (e : ℤ × ℕ). (stream_id, e.0))
      (but_last (take_while (λ (e : ℤ × ℕ). leb e.1 new_start_offset) (stream_epochs s stream_id)))

-- The stream objects that end at or below an offset.
abbrev pub ends_by : ℕ → StreamObjectRow → Bool
ends_by offset row =
    map_or false (λ (r : StreamOffsetRange). leb r.end_offset offset) (first_range row)

unfoldable pub dead_objects : MetadataState → ℕ → ℕ → List StreamOffsetKey
dead_objects s stream_id offset = keys_of (
    keep_if (λ (e : StreamOffsetKey × StreamObjectRow). ends_by offset e.1)
      (stream_range stream_id s.stream_objects))

-- The writes of `trim_stream`, after its checks.
unfoldable pub trimmed : MetadataState → StreamRow → ℕ → ℕ → MetadataState
unfolding older_epochs dead_objects
trimmed s row stream_id new_start_offset =
    let s₁ = put_stream s (record row { start_offset = new_start_offset }) in
    let s₂ = record s₁ {
      epochs = remove_all (older_epochs s₁ stream_id new_start_offset) s₁.epochs;
    } in
    for_each destroy_stream_object s₂ (dead_objects s₂ stream_id new_start_offset)

unfoldable pub trim_stream : MetadataState → ℤ → ℕ → ℤ → ℕ → Outcome
unfolding require_stream check_owner
trim_stream s node_id stream_id epoch new_start_offset = do
  row ← require_stream s stream_id
  fail_if (not (row.epoch == epoch)) (expired_epoch stream_id epoch)
  check_owner s row node_id
  fail_if (ltb new_start_offset row.start_offset) unexpected
  fail_if (ltb row.end_offset new_start_offset) unexpected
  ok (trimmed s row stream_id new_start_offset, unit)

unfoldable pub close_stream : MetadataState → ℤ → ℕ → ℤ → Outcome
unfolding require_stream check_owner
close_stream s node_id stream_id epoch = do
  row ← require_stream s stream_id
  let closed_row = record row { state = closed }
  if not (is_opened row.state) && row.epoch == epoch then ok (s, unit) else do
    check_owner s row node_id
    fail_if (not (is_opened row.state)) unexpected
    fail_if (not (row.epoch == epoch)) (expired_epoch stream_id epoch)
    ok (put_stream s closed_row, unit)

-- The keys of the stream's epochs.
unfoldable pub epoch_keys : MetadataState → ℕ → List (ℕ × ℤ)
unfolding stream_epochs
epoch_keys s stream_id = map (λ (e : ℤ × ℕ). (stream_id, e.0)) (stream_epochs s stream_id)

unfoldable pub forget_stream : MetadataState → ℕ → MetadataState
unfolding epoch_keys
forget_stream s stream_id =
    let s₁ = remove_stream s stream_id in
    let s₂ = record s₁ { pending_transfers = remove stream_id s₁.pending_transfers } in
    let s₃ = record s₂ { epochs = remove_all (epoch_keys s₂ stream_id) s₂.epochs } in
    for_each destroy_stream_object s₃ (keys_of (stream_range stream_id s₃.stream_objects))

-- The checks of `delete_stream` on a stream that is there, and the deletion.
unfoldable pub delete_found : MetadataState → ℤ → ℕ → ℤ → StreamRow → Outcome
unfolding check_owner
delete_found s node_id stream_id epoch row = do
  check_owner s row node_id
  fail_if (is_opened row.state) (stream_not_closed stream_id)
  fail_if (not (row.epoch == epoch)) (expired_epoch stream_id epoch)
  ok (forget_stream s stream_id, unit)

unfoldable pub delete_stream : MetadataState → ℤ → ℕ → ℤ → Outcome
unfolding delete_found
delete_stream s node_id stream_id epoch = elim (get stream_id s.streams) [
  | none ↦ ok (s, unit)
  | some row ↦ delete_found s node_id stream_id epoch row
]
