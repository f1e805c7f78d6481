-- ===== src/Metadata/Codec/Body.antt =====
-- picomq/pico-metadata/src/codec.rs: command bodies, a type byte and then the fields.
use picomq.Prelude.{ℕ, Option, none, some, [], ◌++◌, nat_ord, ◌==◌, if◌then◌else◌, ℤ, Bytes}
use picomq.Wire.{Reader, ◌>>=◌, pure, failing}
use picomq.Metadata.Command
use picomq.Metadata.Command.{
  MetadataCommand, Registration, type_code, proposer, register_node, create_stream, open_stream,
  trim_stream, close_stream, delete_stream, prepare_object, commit_stream_set_object,
  compact_stream_object, expire_prepared_objects, clean_destroyed_objects, put_kv, put_kv_if_absent,
  delete_kv, transfer_stream, complete_transfer, create_streams, place_stream, delete_kv_if_matches,
  allocate_producer_ids, put_kv_if_matches, heartbeat, fence_node, set_node_slots,
}
use picomq.Metadata.Codec.Primitives.{
  CodecError, unknown_command, put_u8, put_u32, put_u64, put_i32, put_i64, put_str, put_blob,
  put_str_map, put_proposer, get_u8, get_u32, get_u64, get_i32, get_i64, get_str, get_blob,
  get_str_map, get_proposer,
}
use picomq.Metadata.Codec.Requests.{
  put_ids, put_commit_request, put_compact_request, get_ids, get_commit_request,
  get_compact_request,
}

unfoldable pub put_registration : Registration → Bytes
unfolding put_str put_str_map
put_registration r =
    put_i32 r.node_id
    ++ (put_i64 r.node_epoch
        ++ (put_str r.http_address
            ++ (put_u32 r.slots ++ (put_str_map r.protocol_addresses ++ put_str r.wal))))

abbrev pub put_node : Option ℤ → Bytes
put_node none = put_u8 0
put_node (some node_id) = put_u8 1 ++ put_i32 node_id

unfoldable pub put_fields : MetadataCommand → Bytes
unfolding put_registration put_str put_blob put_commit_request put_compact_request
put_fields (register_node r) = put_registration r
put_fields (create_stream _) = []
put_fields (open_stream _ stream_id epoch) = put_u64 stream_id ++ put_i64 epoch
put_fields (trim_stream _ stream_id epoch new_start_offset) =
    put_u64 stream_id ++ (put_i64 epoch ++ put_u64 new_start_offset)
put_fields (close_stream _ stream_id epoch) = put_u64 stream_id ++ put_i64 epoch
put_fields (delete_stream _ stream_id epoch) = put_u64 stream_id ++ put_i64 epoch
put_fields (prepare_object _ count ttl_ms now_ms) =
    put_u32 count ++ (put_i64 ttl_ms ++ put_i64 now_ms)
put_fields (commit_stream_set_object _ request now_ms) =
    put_i64 now_ms ++ put_commit_request request
put_fields (compact_stream_object _ request now_ms) = put_i64 now_ms ++ put_compact_request request
put_fields (expire_prepared_objects _ now_ms) = put_i64 now_ms
put_fields (clean_destroyed_objects _ object_ids) = put_ids object_ids
put_fields (put_kv _ key value) = put_str key ++ put_blob value
put_fields (put_kv_if_absent _ key value) = put_str key ++ put_blob value
put_fields (delete_kv _ key) = put_str key
put_fields (transfer_stream _ stream_id from_node to_node) =
    put_u64 stream_id ++ (put_i32 from_node ++ put_i32 to_node)
put_fields (complete_transfer _ stream_id epoch) = put_u64 stream_id ++ put_i64 epoch
put_fields (create_streams _ count) = put_u32 count
put_fields (place_stream _ stream_id node_id) = put_u64 stream_id ++ put_node node_id
put_fields (delete_kv_if_matches _ key expected) = put_str key ++ put_blob expected
put_fields (allocate_producer_ids _ count) = put_u32 count
put_fields (put_kv_if_matches _ key expected value) =
    put_str key ++ (put_blob expected ++ put_blob value)
put_fields (heartbeat _) = []
put_fields (fence_node _ node_id node_epoch heartbeats) =
    put_i32 node_id ++ (put_i64 node_epoch ++ put_u64 heartbeats)
put_fields (set_node_slots _ node_id slots) = put_i32 node_id ++ put_u32 slots

abbrev pub put_proposer_of : Option Command.Proposer → Bytes
put_proposer_of none = []
put_proposer_of (some p) = put_proposer p

unfoldable pub put_command_body : MetadataCommand → Bytes
unfolding type_code proposer put_proposer put_fields
put_command_body command =
    put_u8 (type_code command) ++ (put_proposer_of (proposer command) ++ put_fields command)

unfoldable pub get_registration : Reader CodecError MetadataCommand
unfolding get_i32 get_i64 get_str get_u32 get_str_map
get_registration = get_i32 >>= λ node_id. get_i64 >>= λ node_epoch. get_str >>= λ http_address.
    get_u32 >>= λ slots. get_str_map >>= λ protocol_addresses. get_str >>= λ wal. pure (
      register_node (record {
        node_id = node_id;
        node_epoch = node_epoch;
        http_address = http_address;
        slots = slots;
        protocol_addresses = protocol_addresses;
        wal = wal;
      }))

-- `0 => None, _ => Some(get_i32(buf)?)`
unfoldable pub node_of : ℕ → Reader CodecError (Option ℤ)
unfolding get_i32
node_of tag = if tag == 0 then pure none else (get_i32 >>= λ node_id. pure (some node_id))

unfoldable pub get_node : Reader CodecError (Option ℤ)
unfolding get_u8 node_of
get_node = get_u8 >>= node_of

unfoldable pub get_fields : ℕ → Reader CodecError MetadataCommand
unfolding get_proposer get_u32 get_u64 get_i32 get_i64 get_str get_blob get_ids get_commit_request
    get_compact_request get_node
get_fields type_code =
    if type_code == 1
    then (get_proposer >>= λ p. pure (create_stream p))
    else if type_code == 2
    then (get_proposer >>= λ p.
        get_u64 >>= λ stream_id. get_i64 >>= λ epoch. pure (open_stream p stream_id epoch))
    else if type_code == 3
    then (get_proposer >>= λ p. get_u64 >>= λ stream_id. get_i64 >>= λ epoch.
        get_u64 >>= λ new_start_offset. pure (trim_stream p stream_id epoch new_start_offset))
    else if type_code == 4
    then (get_proposer >>= λ p.
        get_u64 >>= λ stream_id. get_i64 >>= λ epoch. pure (close_stream p stream_id epoch))
    else if type_code == 5
    then (get_proposer >>= λ p.
        get_u64 >>= λ stream_id. get_i64 >>= λ epoch. pure (delete_stream p stream_id epoch))
    else if type_code == 6
    then (get_proposer >>= λ p. get_u32 >>= λ count.
        get_i64 >>= λ ttl_ms. get_i64 >>= λ now_ms. pure (prepare_object p count ttl_ms now_ms))
    else if type_code == 7
    then (get_proposer >>= λ p. get_i64 >>= λ now_ms.
        get_commit_request >>= λ request. pure (commit_stream_set_object p request now_ms))
    else if type_code == 8
    then (get_proposer >>= λ p. get_i64 >>= λ now_ms.
        get_compact_request >>= λ request. pure (compact_stream_object p request now_ms))
    else if type_code == 9
    then (get_proposer >>= λ p. get_i64 >>= λ now_ms. pure (expire_prepared_objects p now_ms))
    else if type_code == 11
    then (get_proposer >>= λ p.
        get_ids >>= λ object_ids. pure (clean_destroyed_objects p object_ids))
    else if type_code == 12
    then (get_proposer >>= λ p. get_str >>= λ key. get_blob >>= λ value. pure (put_kv p key value))
    else if type_code == 13
    then (get_proposer >>= λ p.
        get_str >>= λ key. get_blob >>= λ value. pure (put_kv_if_absent p key value))
    else if type_code == 14
    then (get_proposer >>= λ p. get_str >>= λ key. pure (delete_kv p key))
    else if type_code == 15
    then (get_proposer >>= λ p. get_u64 >>= λ stream_id. get_i32 >>= λ from_node.
        get_i32 >>= λ to_node. pure (transfer_stream p stream_id from_node to_node))
    else if type_code == 16
    then (get_proposer >>= λ p.
        get_u64 >>= λ stream_id. get_i64 >>= λ epoch. pure (complete_transfer p stream_id epoch))
    else if type_code == 17
    then (get_proposer >>= λ p. get_u32 >>= λ count. pure (create_streams p count))
    else if type_code == 18
    then (get_proposer >>= λ p.
        get_u64 >>= λ stream_id. get_node >>= λ node_id. pure (place_stream p stream_id node_id))
    else if type_code == 19
    then (get_proposer >>= λ p.
        get_str >>= λ key. get_blob >>= λ expected. pure (delete_kv_if_matches p key expected))
    else if type_code == 20
    then (get_proposer >>= λ p. get_u32 >>= λ count. pure (allocate_producer_ids p count))
    else if type_code == 21
    then (get_proposer >>= λ p. get_str >>= λ key. get_blob >>= λ expected.
        get_blob >>= λ value. pure (put_kv_if_matches p key expected value))
    else if type_code == 22
    then (get_proposer >>= λ p. pure (heartbeat p))
    else if type_code == 23
    then (get_proposer >>= λ p. get_i32 >>= λ node_id. get_i64 >>= λ node_epoch.
        get_u64 >>= λ heartbeats. pure (fence_node p node_id node_epoch heartbeats))
    else if type_code == 24
    then (get_proposer >>= λ p.
        get_i32 >>= λ node_id. get_u32 >>= λ slots. pure (set_node_slots p node_id slots))
    else failing (unknown_command type_code)

unfoldable pub body_of : ℕ → Reader CodecError MetadataCommand
unfolding get_registration get_fields
body_of type_code = if type_code == 10 then get_registration else get_fields type_code

unfoldable pub get_command_body : Reader CodecError MetadataCommand
unfolding get_u8 body_of
get_command_body = get_u8 >>= body_of
