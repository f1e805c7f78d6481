-- ===== src/Metadata/Codec/RequestsBack.antt =====
-- picomq/pico-metadata/src/codec.rs: the commit and compaction requests are read back.
use picomq.Prelude.{◌≡◌, List, [], ◌∷◌, length, All, arith}
use picomq.Engine.{
  ObjectStreamRange, StreamObject, CommitStreamSetObjectRequest, CompactStreamObjectRequest,
  CompactOperations,
}
use picomq.Wire.{pure}
use picomq.Wire.Reads.{Reads, Reads-bind, Reads-map, Reads-last, Reads-pure}
use picomq.Metadata.Codec.Requests.{
  put_range, put_object, put_commit_request, get_range, get_object, get_commit_request,
  operation_byte, put_operation, put_compact_request, operation_of_byte, get_operation,
  get_compact_request,
}
use picomq.Metadata.Codec.Fields.{
  IsU32, IsU64, AreIds, get_u8-Reads, get_u32-Reads, get_u64-Reads, get_len-Reads, get_ids-Reads,
  All-Reads,
}

pub record IsRange (r : ObjectStreamRange) : Type 0 where
  pub stream_id : IsU64 r.stream_id
  pub epoch : IsU64 r.epoch
  pub start_offset : IsU64 r.start_offset
  pub end_offset : IsU64 r.end_offset
  pub size : IsU64 r.size

get_range-Reads : (r : ObjectStreamRange) → IsRange r → Reads get_range (put_range r) r
unfolding get_range put_range
get_range-Reads r h = Reads-bind _ (get_u64-Reads r.stream_id h.stream_id) (
    Reads-bind _ (get_u64-Reads r.epoch h.epoch) (
      Reads-bind _ (get_u64-Reads r.start_offset h.start_offset) (
        Reads-bind _ (get_u64-Reads r.end_offset h.end_offset)
          (Reads-map _ (get_u64-Reads r.size h.size)))))

pub record IsObject (o : StreamObject) : Type 0 where
  pub object_id : IsU64 o.object_id
  pub object_size : IsU64 o.object_size
  pub stream_id : IsU64 o.stream_id
  pub start_offset : IsU64 o.start_offset
  pub end_offset : IsU64 o.end_offset
  pub attributes : IsU32 o.attributes

get_object-Reads : (o : StreamObject) → IsObject o → Reads get_object (put_object o) o
unfolding get_object put_object
get_object-Reads o h = Reads-bind _ (get_u64-Reads o.object_id h.object_id) (
    Reads-bind _ (get_u64-Reads o.object_size h.object_size) (
      Reads-bind _ (get_u64-Reads o.stream_id h.stream_id) (
        Reads-bind _ (get_u64-Reads o.start_offset h.start_offset) (
          Reads-bind _ (get_u64-Reads o.end_offset h.end_offset)
            (Reads-map _ (get_u32-Reads o.attributes h.attributes))))))

pub record IsCommitRequest (r : CommitStreamSetObjectRequest) : Type 0 where
  pub object_id : IsU64 r.object_id
  pub object_size : IsU64 r.object_size
  pub attributes : IsU32 r.attributes
  pub stream_ranges : IsU32 (length r.stream_ranges) × All IsRange r.stream_ranges
  pub stream_objects : IsU32 (length r.stream_objects) × All IsObject r.stream_objects
  pub compacted_object_ids : AreIds r.compacted_object_ids

pub get_commit_request-Reads :
    (r : CommitStreamSetObjectRequest)
    → IsCommitRequest r
    → Reads get_commit_request (put_commit_request r) r
unfolding get_commit_request put_commit_request
get_commit_request-Reads r h = Reads-bind _ (get_u64-Reads r.object_id h.object_id) (
    Reads-bind _ (get_u64-Reads r.object_size h.object_size) (
      Reads-bind _ (get_u32-Reads r.attributes h.attributes) (
        Reads-bind _ (get_len-Reads r.stream_ranges h.stream_ranges.0) (
          Reads-bind _
            (All-Reads get_range put_range get_range-Reads r.stream_ranges h.stream_ranges.1)
            (Reads-bind _ (get_len-Reads r.stream_objects h.stream_objects.0) (
              Reads-bind _
                (All-Reads get_object put_object get_object-Reads r.stream_objects
                  h.stream_objects.1)
                (Reads-map _ (get_ids-Reads r.compacted_object_ids h.compacted_object_ids))))))))

operation_of_byte-operation_byte :
    (op : CompactOperations) → operation_of_byte (operation_byte op) ≡ pure op
unfolding operation_of_byte operation_byte
operation_of_byte-operation_byte op = ground arith

get_operation-Reads : (op : CompactOperations) → Reads get_operation (put_operation op) op
unfolding get_operation
get_operation-Reads op =
    Reads-last _ (get_u8-Reads (operation_byte op))
      (rw (operation_of_byte-operation_byte op) (Reads-pure op))

pub record IsCompactRequest (r : CompactStreamObjectRequest) : Type 0 where
  pub object_id : IsU64 r.object_id
  pub object_size : IsU64 r.object_size
  pub stream_id : IsU64 r.stream_id
  pub stream_epoch : IsU64 r.stream_epoch
  pub start_offset : IsU64 r.start_offset
  pub end_offset : IsU64 r.end_offset
  pub attributes : IsU32 r.attributes
  pub source_object_ids : AreIds r.source_object_ids
  pub operations : IsU32 (length r.operations)

All-unit {ℓ} : {A : Type ℓ} (xs : List A) → All (λ (x : A). Unit {0}) xs
All-unit [] = tt
All-unit (x ∷ xs) = (tt, All-unit xs)

pub get_compact_request-Reads :
    (r : CompactStreamObjectRequest)
    → IsCompactRequest r
    → Reads get_compact_request (put_compact_request r) r
unfolding get_compact_request put_compact_request
get_compact_request-Reads r h = Reads-bind _ (get_u64-Reads r.object_id h.object_id) (
    Reads-bind _ (get_u64-Reads r.object_size h.object_size) (
      Reads-bind _ (get_u64-Reads r.stream_id h.stream_id) (
        Reads-bind _ (get_u64-Reads r.stream_epoch h.stream_epoch) (
          Reads-bind _ (get_u64-Reads r.start_offset h.start_offset) (
            Reads-bind _ (get_u64-Reads r.end_offset h.end_offset) (
              Reads-bind _ (get_u32-Reads r.attributes h.attributes) (
                Reads-bind _ (get_ids-Reads r.source_object_ids h.source_object_ids) (
                  Reads-bind _ (get_len-Reads r.operations h.operations) (
                    Reads-map _ (
                      All-Reads get_operation put_operation (λ op _. get_operation-Reads op)
                        r.operations (All-unit r.operations)))))))))))
