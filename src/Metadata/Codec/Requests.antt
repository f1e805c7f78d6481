-- ===== src/Metadata/Codec/Requests.antt =====
-- picomq/pico-metadata/src/codec.rs: the commit and compaction requests.
use picomq.Prelude.{ℕ, List, ◌++◌, nat_ord, ◌==◌, if◌then◌else◌, Bytes}
use picomq.Engine.{
  ObjectStreamRange, StreamObject, CommitStreamSetObjectRequest, CompactStreamObjectRequest,
  CompactOperations, delete, keep_data, deep_delete,
}
use picomq.Wire.{Reader, ◌>>=◌, pure, failing, many}
use picomq.Wire.Reads.{join}
use picomq.Metadata.Codec.Primitives.{
  CodecError, corrupt, put_u8, put_u32, put_u64, put_len, get_u8, get_u32, get_u64,
}

unfoldable pub put_range : ObjectStreamRange → Bytes
put_range r =
    put_u64 r.stream_id
    ++ (put_u64 r.epoch ++ (put_u64 r.start_offset ++ (put_u64 r.end_offset ++ put_u64 r.size)))

unfoldable pub put_object : StreamObject → Bytes
put_object o =
    put_u64 o.object_id
    ++ (put_u64 o.object_size
        ++ (put_u64 o.stream_id
            ++ (put_u64 o.start_offset ++ (put_u64 o.end_offset ++ put_u32 o.attributes))))

abbrev pub put_ids : List ℕ → Bytes
put_ids ids = put_len ids ++ join put_u64 ids

unfoldable pub put_commit_request : CommitStreamSetObjectRequest → Bytes
unfolding put_range put_object
put_commit_request r =
    put_u64 r.object_id
    ++ (put_u64 r.object_size
        ++ (put_u32 r.attributes
            ++ (put_len r.stream_ranges
                ++ (join put_range r.stream_ranges
                    ++ (put_len r.stream_objects
                        ++ (join put_object r.stream_objects ++ put_ids r.compacted_object_ids))))))

unfoldable pub get_range : Reader CodecError ObjectStreamRange
unfolding get_u64
get_range = get_u64 >>= λ stream_id. get_u64 >>= λ epoch. get_u64 >>= λ start_offset.
    get_u64 >>= λ end_offset. get_u64 >>= λ size. pure (record {
      stream_id = stream_id;
      epoch = epoch;
      start_offset = start_offset;
      end_offset = end_offset;
      size = size;
    })

unfoldable pub get_object : Reader CodecError StreamObject
unfolding get_u64 get_u32
get_object = get_u64 >>= λ object_id. get_u64 >>= λ object_size. get_u64 >>= λ stream_id.
    get_u64 >>= λ start_offset. get_u64 >>= λ end_offset. get_u32 >>= λ attributes. pure (record {
      object_id = object_id;
      object_size = object_size;
      stream_id = stream_id;
      start_offset = start_offset;
      end_offset = end_offset;
      attributes = attributes;
    })

-- A count and that many ids.
unfoldable pub get_ids : Reader CodecError (List ℕ)
unfolding get_u32 get_u64
get_ids = get_u32 >>= λ count. many count get_u64

unfoldable pub get_commit_request : Reader CodecError CommitStreamSetObjectRequest
unfolding get_u32 get_u64 get_range get_object get_ids
get_commit_request = get_u64 >>= λ object_id. get_u64 >>= λ object_size. get_u32 >>= λ attributes.
    get_u32 >>= λ range_count. many range_count get_range >>= λ stream_ranges.
    get_u32 >>= λ object_count. many object_count get_object >>= λ stream_objects.
    get_ids >>= λ compacted_object_ids. pure (record {
      object_id = object_id;
      object_size = object_size;
      attributes = attributes;
      stream_ranges = stream_ranges;
      stream_objects = stream_objects;
      compacted_object_ids = compacted_object_ids;
    })

-- `op as u8`
unfoldable pub operation_byte : CompactOperations → ℕ
operation_byte delete = 0
operation_byte keep_data = 1
operation_byte deep_delete = 2

abbrev pub put_operation : CompactOperations → Bytes
put_operation op = put_u8 (operation_byte op)

unfoldable pub put_compact_request : CompactStreamObjectRequest → Bytes
unfolding operation_byte
put_compact_request r =
    put_u64 r.object_id
    ++ (put_u64 r.object_size
        ++ (put_u64 r.stream_id
            ++ (put_u64 r.stream_epoch
                ++ (put_u64 r.start_offset
                    ++ (put_u64 r.end_offset
                        ++ (put_u32 r.attributes
                            ++ (put_ids r.source_object_ids
                                ++ (put_len r.operations ++ join put_operation r.operations))))))))

unfoldable pub operation_of_byte : ℕ → Reader CodecError CompactOperations
operation_of_byte b =
    if b == 0
    then pure delete
    else if b == 1
    then pure keep_data
    else if b == 2
    then pure deep_delete
    else failing corrupt

unfoldable pub get_operation : Reader CodecError CompactOperations
unfolding get_u8 operation_of_byte
get_operation = get_u8 >>= operation_of_byte

unfoldable pub get_compact_request : Reader CodecError CompactStreamObjectRequest
unfolding get_u32 get_u64 get_ids get_operation
get_compact_request = get_u64 >>= λ object_id. get_u64 >>= λ object_size. get_u64 >>= λ stream_id.
    get_u64 >>= λ stream_epoch. get_u64 >>= λ start_offset. get_u64 >>= λ end_offset.
    get_u32 >>= λ attributes. get_ids >>= λ source_object_ids. get_u32 >>= λ op_count.
    many op_count get_operation >>= λ operations. pure (record {
      object_id = object_id;
      object_size = object_size;
      stream_id = stream_id;
      stream_epoch = stream_epoch;
      start_offset = start_offset;
      end_offset = end_offset;
      source_object_ids = source_object_ids;
      operations = operations;
      attributes = attributes;
    })
