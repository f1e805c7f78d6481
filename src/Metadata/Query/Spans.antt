-- ===== src/Metadata/Query/Spans.antt =====
-- picomq/pico-metadata/src/query.rs: table sizes, pages of stream object keys, and the spans of the
-- objects that hold a stream's data.
use picomq.Prelude.{
  ℕ, ◌+◌, Bool, true, Option, none, some, List, [], ◌∷◌, ◌++◌, nat_ord, pair_ord, ltb, leb,
  map_option, if◌then◌else◌, keep_if, take, map,
}
use picomq.Engine.{StreamOffsetRange}
use picomq.OrdMap.{get, len, scan, keys_of}
use picomq.Metadata.State.{
  StreamSetObjectRow, StreamObjectRow, StreamOffsetKey, ObjectSpan, MetadataState,
}
use picomq.Metadata.Query.{stream_range, all_found, first_range}

unfoldable pub objects_count : MetadataState → ℕ
objects_count s = len s.stream_set_objects + len s.stream_objects

unfoldable pub prepared_objects_count : MetadataState → ℕ
prepared_objects_count s = len s.prepared

-- The lower bound of a page of keys.
abbrev pub key_after : Option StreamOffsetKey → StreamOffsetKey → Bool
key_after none key = true
key_after (some after) key = ltb after key

unfoldable pub stream_object_keys_page :
    MetadataState → Option StreamOffsetKey → ℕ → List StreamOffsetKey
stream_object_keys_page s start_after limit = keys_of (
    take limit (
      scan (λ (e : StreamOffsetKey × StreamObjectRow). key_after start_after e.0) s.stream_objects))

-- The span of one range of a stream-set object, whose row must be there.
unfoldable pub set_span : MetadataState → StreamOffsetKey × (ℕ × ℕ) → Option ObjectSpan
set_span s ((stream_id, (start_offset, object_id)), (end_offset, bytes)) =
    map_option
      (λ (row : StreamSetObjectRow).
        let span : ObjectSpan = record {
          start_offset = start_offset;
          end_offset = end_offset;
          bytes = bytes;
          last_write_ms = row.last_write_ms;
        } in
        span)
      (get object_id s.stream_set_objects)

unfoldable pub object_span : StreamOffsetKey × StreamObjectRow → Option ObjectSpan
object_span (key, row) =
    map_option
      (λ (range : StreamOffsetRange).
        let span : ObjectSpan = record {
          start_offset = range.start_offset;
          end_offset = range.end_offset;
          bytes = row.object.object_size;
          last_write_ms = row.last_write_ms;
        } in
        span)
      (first_range row)

-- `sort_by_key` is stable: a span goes before the first that starts after it.
unfoldable pub insert_span : ObjectSpan → List ObjectSpan → List ObjectSpan
insert_span span [] = span ∷ []
insert_span span (first ∷ rest) =
    let inserted = insert_span span rest in
    if leb span.start_offset first.start_offset then span ∷ first ∷ rest else first ∷ inserted

unfoldable pub sort_spans : List ObjectSpan → List ObjectSpan
unfolding insert_span
sort_spans [] = []
sort_spans (span ∷ rest) = insert_span span (sort_spans rest)

-- `none` where a lookup of the code would panic.
unfoldable pub object_spans : MetadataState → ℕ → Option (List ObjectSpan)
unfolding set_span object_span sort_spans
object_spans s stream_id = elim (get stream_id s.streams) [
  | none ↦ some []
  | some stream ↦
      map_option
        (λ (spans : List ObjectSpan).
          sort_spans
            (keep_if (λ (span : ObjectSpan). ltb stream.start_offset span.end_offset) spans))
        (all_found (
          map (set_span s) (stream_range stream_id s.sso_ranges)
          ++ map object_span (stream_range stream_id s.stream_objects)))
]
