-- ===== src/Metadata/Query.antt =====
-- picomq/pico-metadata/src/query.rs: the read side. A query that indexes a map by a key that must
-- be there (`map[&key]`) panics where it is not: the model returns `none`.
pub mod Spans
use picomq.Prelude.{
  ℕ, zero, suc, Bool, true, false, not, ◌&&◌, ◌||◌, Option, none, some, List, [], ◌∷◌, int_ord,
  nat_ord, pair_ord, bytes_ord, ◌==◌, ltb, leb, ℤ, i64_min, i64_max, u64_max, map_or, map_option,
  if◌then◌else◌, take_while, keep_if, filter_map, take, map, length, is_empty, starts_with,
}
use picomq.Engine.{S3ObjectMetadata, StreamMetadata, CompactOperations, StreamOffsetRange}
use picomq.OrdMap.{OrdMap, get, contains_key, range, iter, scan}
use picomq.Metadata.Command.{Text, Bytes, Proposer}
use picomq.Metadata.State.{
  NodeRow, StreamSetObjectRow, StreamObjectRow, StreamOffsetKey, MetadataState, to_stream_metadata,
}

unfoldable pub is_live : MetadataState → Proposer → Bool
is_live s node =
    map_or false (λ (row : NodeRow). row.epoch == node.node_epoch && not row.fenced)
      (get node.node_id s.nodes)

unfoldable pub get_stream : MetadataState → ℕ → Option StreamMetadata
get_stream s stream_id = map_option to_stream_metadata (get stream_id s.streams)

unfoldable pub get_streams : MetadataState → List ℕ → List StreamMetadata
unfolding get_stream
get_streams s stream_ids = filter_map (get_stream s) stream_ids

unfoldable pub stream_epochs : MetadataState → ℕ → List (ℤ × ℕ)
stream_epochs s stream_id =
    map (λ (e : (ℕ × ℤ) × ℕ). (e.0.1, e.1))
      (range (stream_id, i64_min) (stream_id, i64_max) s.epochs)

abbrev pub node_range : ℤ → OrdMap (ℤ × ℕ) (Unit {0}) → List ℕ
node_range node_id m =
    map (λ (e : (ℤ × ℕ) × Unit {0}). e.0.1) (range (node_id, 0) (node_id, u64_max) m)

unfoldable pub get_opening_streams : MetadataState → ℤ → List StreamMetadata
unfolding get_stream
get_opening_streams s node_id = filter_map (get_stream s) (node_range node_id s.opening_by_node)

unfoldable pub placed_on : MetadataState → ℤ → List ℕ
placed_on s node_id = node_range node_id s.placed_by_node

unfoldable pub opening_count : MetadataState → ℤ → ℕ
opening_count s node_id = length (node_range node_id s.opening_by_node)

unfoldable pub placed_count : MetadataState → ℤ → ℕ
placed_count s node_id = length (node_range node_id s.placed_by_node)

abbrev unless_empty : Option Text → Option Text
unless_empty none = none
unless_empty (some a) = if is_empty a then none else some a

unfoldable pub get_node_address : MetadataState → ℤ → Option Text
get_node_address s node_id =
    unless_empty (map_option (λ (n : NodeRow). n.http_address) (get node_id s.nodes))

abbrev address_of : Text → Option NodeRow → Option Text
address_of protocol none = none
address_of protocol (some n) = get protocol n.protocol_addresses

unfoldable pub get_node_protocol_address : MetadataState → ℤ → Text → Option Text
get_node_protocol_address s node_id protocol =
    unless_empty (address_of protocol (get node_id s.nodes))

-- The key range of one stream in the offset-sorted indexes.
abbrev pub stream_range : {V : Type 0} → ℕ → OrdMap StreamOffsetKey V → List (StreamOffsetKey × V)
stream_range stream_id = range (stream_id, (0, 0)) (stream_id, (u64_max, u64_max))

-- All of a list of lookups, `none` where one of them panics.
abbrev pub all_found {ℓ} : {A : Type ℓ} → List (Option A) → Option (List A)
all_found [] = some []
all_found (none ∷ rest) = none
all_found (some a ∷ rest) = map_option (λ as'. a ∷ as') (all_found rest)

-- `row.object.offset_ranges[0]`
abbrev pub first_range : StreamObjectRow → Option StreamOffsetRange
first_range row = elim row.object.offset_ranges [ [] ↦ none | range ∷ _ ↦ some range ]

abbrev pub range_overlaps : ℕ → ℕ → ℕ → ℕ → Bool
range_overlaps start_offset end_offset range_start range_end =
    ltb start_offset range_end && ltb range_start end_offset

-- The entries of an index that a range lookup walks: those of the stream, up to the first that
-- starts at or past the end.
abbrev pub starting_below :
    {V : Type 0} → ℕ → List (StreamOffsetKey × V) → List (StreamOffsetKey × V)
starting_below {V} end_offset = take_while (λ (e : StreamOffsetKey × V). ltb e.0.1.0 end_offset)

abbrev pub row_overlaps : ℕ → ℕ → StreamObjectRow → Bool
row_overlaps start_offset end_offset row =
    map_or false
      (λ (r : StreamOffsetRange).
        range_overlaps start_offset end_offset r.start_offset r.end_offset)
      (first_range row)

-- (range_start, object_id) of the stream-set slices that overlap
unfoldable pub sso_slices : MetadataState → ℕ → ℕ → ℕ → List (ℕ × ℕ)
sso_slices s stream_id start_offset end_offset =
    map (λ (e : StreamOffsetKey × (ℕ × ℕ)). (e.0.1.0, e.0.1.1))
      (keep_if
        (λ (e : StreamOffsetKey × (ℕ × ℕ)). range_overlaps start_offset end_offset e.0.1.0 e.1.0)
        (starting_below end_offset (stream_range stream_id s.sso_ranges)))

unfoldable pub object_slices : MetadataState → ℕ → ℕ → ℕ → List (StreamOffsetKey × StreamObjectRow)
object_slices s stream_id start_offset end_offset =
    keep_if (λ (e : StreamOffsetKey × StreamObjectRow). row_overlaps start_offset end_offset e.1)
      (starting_below end_offset (stream_range stream_id s.stream_objects))

abbrev pub sso_object : MetadataState → ℕ → Option S3ObjectMetadata
sso_object s object_id =
    map_option (λ (row : StreamSetObjectRow). row.object) (get object_id s.stream_set_objects)

-- The merge loop of `get_objects`. A stream-set slice goes first unless the next stream object
-- starts before it.
unfoldable pub merge_objects :
    MetadataState
    → ℕ
    → List (ℕ × ℕ)
    → List (StreamOffsetKey × StreamObjectRow)
    → List (Option S3ObjectMetadata)
merge_objects s zero sso objs = []
merge_objects s (suc limit) [] [] = []
merge_objects s (suc limit) [] ((key, row) ∷ objs) = some row.object ∷ merge_objects s limit [] objs
merge_objects s (suc limit) ((sso_start, object_id) ∷ sso) [] =
    sso_object s object_id ∷ merge_objects s limit sso []
merge_objects s (suc limit) ((sso_start, object_id) ∷ sso) ((key, row) ∷ objs) =
    elim (ltb key.1.0 sso_start) [
      | true ↦ some row.object ∷ merge_objects s limit ((sso_start, object_id) ∷ sso) objs
      | false ↦ sso_object s object_id ∷ merge_objects s limit sso ((key, row) ∷ objs)
    ]

unfoldable pub get_objects : MetadataState → ℕ → ℕ → ℕ → ℕ → Option (List S3ObjectMetadata)
unfolding sso_slices object_slices merge_objects
get_objects s stream_id start_offset end_offset limit = all_found (
    merge_objects s limit (sso_slices s stream_id start_offset end_offset)
      (object_slices s stream_id start_offset end_offset))

unfoldable pub get_stream_objects : MetadataState → ℕ → ℕ → ℕ → ℕ → List S3ObjectMetadata
unfolding object_slices
get_stream_objects s stream_id start_offset end_offset limit =
    map (λ (e : StreamOffsetKey × StreamObjectRow). e.1.object)
      (take limit (object_slices s stream_id start_offset end_offset))

unfoldable pub get_server_objects : MetadataState → ℤ → Option (List S3ObjectMetadata)
get_server_objects s node_id = all_found (map (sso_object s) (node_range node_id s.sso_by_node))

unfoldable pub is_object_exist : MetadataState → ℕ → Bool
is_object_exist s object_id =
    contains_key object_id s.stream_set_objects
    || contains_key object_id s.prepared
    || contains_key object_id s.stream_object_ids

unfoldable pub peek_destroyed_objects : MetadataState → ℕ → List (ℕ × CompactOperations)
peek_destroyed_objects s limit =
    map (λ (e : ℕ × (ℕ × CompactOperations)). e.1) (take limit (iter s.mark_destroyed))

unfoldable pub get_kv : MetadataState → Text → Option Bytes
get_kv s key = get key s.kv

unfoldable pub list_kv : MetadataState → Text → List (Text × Bytes)
unfolding starts_with
list_kv s prefix =
    take_while (λ (e : Text × Bytes). starts_with e.0 prefix)
      (scan (λ (e : Text × Bytes). leb prefix e.0) s.kv)

-- The lower bound of a page: strictly after the last key, or at the prefix.
abbrev pub page_from : Text → Option Text → Text → Bool
page_from prefix none key = leb prefix key
page_from prefix (some after) key = if leb prefix after then ltb after key else leb prefix key

unfoldable pub list_kv_page : MetadataState → Text → Option Text → ℕ → List (Text × Bytes)
unfolding starts_with
list_kv_page s prefix start_after limit = take limit (
    take_while (λ (e : Text × Bytes). starts_with e.0 prefix)
      (scan (λ (e : Text × Bytes). page_from prefix start_after e.0) s.kv))
