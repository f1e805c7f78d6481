-- ===== src/Metadata/Codec/Bodies.antt =====
-- picomq/pico-metadata/src/codec.rs: each command body is read back.
use picomq.Prelude.{Option, none, some, ℤ}
use picomq.Wire.{IsI32, IsI64}
use picomq.Wire.Reads.{Reads, Reads-bind, Reads-map, Reads-last, Reads-pure}
use picomq.Metadata.Command.{
  MetadataCommand, Registration, type_code, proposer, register_node, create_stream, open_stream,
  trim_stream, close_stream, delete_stream, prepare_object, commit_stream_set_object,
  compact_stream_object, expire_prepared_objects, clean_destroyed_objects, put_kv, put_kv_if_absent,
  delete_kv, transfer_stream, complete_transfer, create_streams, place_stream, delete_kv_if_matches,
  allocate_producer_ids, put_kv_if_matches, heartbeat, fence_node, set_node_slots,
}
use picomq.Metadata.Codec.Body.{
  put_registration, put_node, put_fields, put_command_body, get_registration, node_of, get_node,
  get_fields, body_of, get_command_body,
}
use picomq.Metadata.Codec.Fields.{
  IsU32, IsU64, IsBlob, IsStr, IsStrMap, IsProposer, AreIds, get_u8-Reads, get_u32-Reads,
  get_u64-Reads, get_i32-Reads, get_i64-Reads, get_str-Reads, get_blob-Reads, get_str_map-Reads,
  get_proposer-Reads, get_ids-Reads,
}
use picomq.Metadata.Codec.RequestsBack.{
  IsCommitRequest, IsCompactRequest, get_commit_request-Reads, get_compact_request-Reads,
}

pub record IsRegistration (r : Registration) : Type 0 where
  pub node_id : IsI32 r.node_id
  pub node_epoch : IsI64 r.node_epoch
  pub http_address : IsStr r.http_address
  pub slots : IsU32 r.slots
  pub protocol_addresses : IsStrMap r.protocol_addresses
  pub wal : IsStr r.wal

abbrev pub IsNode : Option ℤ → Type 0
IsNode none = Unit
IsNode (some z) = IsI32 z

-- What the types of the source guarantee of a command: integers of their width, strings of UTF-8,
-- and lengths that a `u32` holds.
abbrev pub IsCommand : MetadataCommand → Type 0
IsCommand (register_node r) = IsRegistration r
IsCommand (create_stream p) = IsProposer p
IsCommand (open_stream p stream_id epoch) = IsProposer p × IsU64 stream_id × IsI64 epoch
IsCommand (trim_stream p stream_id epoch new_start_offset) =
    IsProposer p × IsU64 stream_id × IsI64 epoch × IsU64 new_start_offset
IsCommand (close_stream p stream_id epoch) = IsProposer p × IsU64 stream_id × IsI64 epoch
IsCommand (delete_stream p stream_id epoch) = IsProposer p × IsU64 stream_id × IsI64 epoch
IsCommand (prepare_object p count ttl_ms now_ms) =
    IsProposer p × IsU32 count × IsI64 ttl_ms × IsI64 now_ms
IsCommand (commit_stream_set_object p request now_ms) =
    IsProposer p × IsI64 now_ms × IsCommitRequest request
IsCommand (compact_stream_object p request now_ms) =
    IsProposer p × IsI64 now_ms × IsCompactRequest request
IsCommand (expire_prepared_objects p now_ms) = IsProposer p × IsI64 now_ms
IsCommand (clean_destroyed_objects p object_ids) = IsProposer p × AreIds object_ids
IsCommand (put_kv p key value) = IsProposer p × IsStr key × IsBlob value
IsCommand (put_kv_if_absent p key value) = IsProposer p × IsStr key × IsBlob value
IsCommand (delete_kv p key) = IsProposer p × IsStr key
IsCommand (transfer_stream p stream_id from_node to_node) =
    IsProposer p × IsU64 stream_id × IsI32 from_node × IsI32 to_node
IsCommand (complete_transfer p stream_id epoch) = IsProposer p × IsU64 stream_id × IsI64 epoch
IsCommand (create_streams p count) = IsProposer p × IsU32 count
IsCommand (place_stream p stream_id node_id) = IsProposer p × IsU64 stream_id × IsNode node_id
IsCommand (delete_kv_if_matches p key expected) = IsProposer p × IsStr key × IsBlob expected
IsCommand (allocate_producer_ids p count) = IsProposer p × IsU32 count
IsCommand (put_kv_if_matches p key expected value) =
    IsProposer p × IsStr key × IsBlob expected × IsBlob value
IsCommand (heartbeat p) = IsProposer p
IsCommand (fence_node p node_id node_epoch heartbeats) =
    IsProposer p × IsI32 node_id × IsI64 node_epoch × IsU64 heartbeats
IsCommand (set_node_slots p node_id slots) = IsProposer p × IsI32 node_id × IsU32 slots

get_registration-Reads :
    (r : Registration)
    → IsRegistration r
    → Reads get_registration (put_registration r) (register_node r)
unfolding get_registration put_registration
get_registration-Reads r h = Reads-bind _ (get_i32-Reads r.node_id h.node_id) (
    Reads-bind _ (get_i64-Reads r.node_epoch h.node_epoch) (
      Reads-bind _ (get_str-Reads r.http_address h.http_address) (
        Reads-bind _ (get_u32-Reads r.slots h.slots) (
          Reads-bind _ (get_str_map-Reads r.protocol_addresses h.protocol_addresses)
            (Reads-map _ (get_str-Reads r.wal h.wal))))))

get_node-Reads : (o : Option ℤ) → IsNode o → Reads get_node (put_node o) o
unfolding get_node node_of
get_node-Reads none h = Reads-last _ (get_u8-Reads 0) (Reads-pure none)
get_node-Reads (some z) h = Reads-bind _ (get_u8-Reads 1) (Reads-map some (get_i32-Reads z h))

pub get_command_body-Reads :
    (c : MetadataCommand) → IsCommand c → Reads get_command_body (put_command_body c) c
unfolding get_command_body put_command_body body_of get_fields put_fields type_code proposer
get_command_body-Reads (register_node r) h =
    Reads-bind _ (get_u8-Reads 10) (get_registration-Reads r h)
get_command_body-Reads (create_stream p) h =
    Reads-bind _ (get_u8-Reads 1)
      (Reads-bind _ (get_proposer-Reads p h) (Reads-pure (create_stream p)))
get_command_body-Reads (open_stream p stream_id epoch) (h, h0, h1) = Reads-bind _ (get_u8-Reads 2) (
    Reads-bind _ (get_proposer-Reads p h)
      (Reads-bind _ (get_u64-Reads stream_id h0) (Reads-map _ (get_i64-Reads epoch h1))))
get_command_body-Reads (trim_stream p stream_id epoch new_start_offset) (h, h0, h1, h2) =
    Reads-bind _ (get_u8-Reads 3) (
      Reads-bind _ (get_proposer-Reads p h) (
        Reads-bind _ (get_u64-Reads stream_id h0) (
          Reads-bind _ (get_i64-Reads epoch h1) (Reads-map _ (get_u64-Reads new_start_offset h2)))))
get_command_body-Reads (close_stream p stream_id epoch) (h, h0, h1) =
    Reads-bind _ (get_u8-Reads 4) (
      Reads-bind _ (get_proposer-Reads p h)
        (Reads-bind _ (get_u64-Reads stream_id h0) (Reads-map _ (get_i64-Reads epoch h1))))
get_command_body-Reads (delete_stream p stream_id epoch) (h, h0, h1) =
    Reads-bind _ (get_u8-Reads 5) (
      Reads-bind _ (get_proposer-Reads p h)
        (Reads-bind _ (get_u64-Reads stream_id h0) (Reads-map _ (get_i64-Reads epoch h1))))
get_command_body-Reads (prepare_object p count ttl_ms now_ms) (h, h0, h1, h2) =
    Reads-bind _ (get_u8-Reads 6) (
      Reads-bind _ (get_proposer-Reads p h) (
        Reads-bind _ (get_u32-Reads count h0)
          (Reads-bind _ (get_i64-Reads ttl_ms h1) (Reads-map _ (get_i64-Reads now_ms h2)))))
get_command_body-Reads (commit_stream_set_object p request now_ms) (h, h0, h1) =
    Reads-bind _ (get_u8-Reads 7) (
      Reads-bind _ (get_proposer-Reads p h) (
        Reads-bind _ (get_i64-Reads now_ms h0) (Reads-map _ (get_commit_request-Reads request h1))))
get_command_body-Reads (compact_stream_object p request now_ms) (h, h0, h1) =
    Reads-bind _ (get_u8-Reads 8) (
      Reads-bind _ (get_proposer-Reads p h) (
        Reads-bind _ (get_i64-Reads now_ms h0)
          (Reads-map _ (get_compact_request-Reads request h1))))
get_command_body-Reads (expire_prepared_objects p now_ms) (h, h0) =
    Reads-bind _ (get_u8-Reads 9)
      (Reads-bind _ (get_proposer-Reads p h) (Reads-map _ (get_i64-Reads now_ms h0)))
get_command_body-Reads (clean_destroyed_objects p object_ids) (h, h0) =
    Reads-bind _ (get_u8-Reads 11)
      (Reads-bind _ (get_proposer-Reads p h) (Reads-map _ (get_ids-Reads object_ids h0)))
get_command_body-Reads (put_kv p key value) (h, h0, h1) = Reads-bind _ (get_u8-Reads 12) (
    Reads-bind _ (get_proposer-Reads p h)
      (Reads-bind _ (get_str-Reads key h0) (Reads-map _ (get_blob-Reads value h1))))
get_command_body-Reads (put_kv_if_absent p key value) (h, h0, h1) = Reads-bind _ (get_u8-Reads 13) (
    Reads-bind _ (get_proposer-Reads p h)
      (Reads-bind _ (get_str-Reads key h0) (Reads-map _ (get_blob-Reads value h1))))
get_command_body-Reads (delete_kv p key) (h, h0) =
    Reads-bind _ (get_u8-Reads 14)
      (Reads-bind _ (get_proposer-Reads p h) (Reads-map _ (get_str-Reads key h0)))
get_command_body-Reads (transfer_stream p stream_id from_node to_node) (h, h0, h1, h2) =
    Reads-bind _ (get_u8-Reads 15) (
      Reads-bind _ (get_proposer-Reads p h) (
        Reads-bind _ (get_u64-Reads stream_id h0)
          (Reads-bind _ (get_i32-Reads from_node h1) (Reads-map _ (get_i32-Reads to_node h2)))))
get_command_body-Reads (complete_transfer p stream_id epoch) (h, h0, h1) =
    Reads-bind _ (get_u8-Reads 16) (
      Reads-bind _ (get_proposer-Reads p h)
        (Reads-bind _ (get_u64-Reads stream_id h0) (Reads-map _ (get_i64-Reads epoch h1))))
get_command_body-Reads (create_streams p count) (h, h0) =
    Reads-bind _ (get_u8-Reads 17)
      (Reads-bind _ (get_proposer-Reads p h) (Reads-map _ (get_u32-Reads count h0)))
get_command_body-Reads (place_stream p stream_id node_id) (h, h0, h1) =
    Reads-bind _ (get_u8-Reads 18) (
      Reads-bind _ (get_proposer-Reads p h)
        (Reads-bind _ (get_u64-Reads stream_id h0) (Reads-map _ (get_node-Reads node_id h1))))
get_command_body-Reads (delete_kv_if_matches p key expected) (h, h0, h1) =
    Reads-bind _ (get_u8-Reads 19) (
      Reads-bind _ (get_proposer-Reads p h)
        (Reads-bind _ (get_str-Reads key h0) (Reads-map _ (get_blob-Reads expected h1))))
get_command_body-Reads (allocate_producer_ids p count) (h, h0) =
    Reads-bind _ (get_u8-Reads 20)
      (Reads-bind _ (get_proposer-Reads p h) (Reads-map _ (get_u32-Reads count h0)))
get_command_body-Reads (put_kv_if_matches p key expected value) (h, h0, h1, h2) =
    Reads-bind _ (get_u8-Reads 21) (
      Reads-bind _ (get_proposer-Reads p h) (
        Reads-bind _ (get_str-Reads key h0)
          (Reads-bind _ (get_blob-Reads expected h1) (Reads-map _ (get_blob-Reads value h2)))))
get_command_body-Reads (heartbeat p) h =
    Reads-bind _ (get_u8-Reads 22)
      (Reads-bind _ (get_proposer-Reads p h) (Reads-pure (heartbeat p)))
get_command_body-Reads (fence_node p node_id node_epoch heartbeats) (h, h0, h1, h2) =
    Reads-bind _ (get_u8-Reads 23) (
      Reads-bind _ (get_proposer-Reads p h) (
        Reads-bind _ (get_i32-Reads node_id h0)
          (Reads-bind _ (get_i64-Reads node_epoch h1) (Reads-map _ (get_u64-Reads heartbeats h2)))))
get_command_body-Reads (set_node_slots p node_id slots) (h, h0, h1) =
    Reads-bind _ (get_u8-Reads 24) (
      Reads-bind _ (get_proposer-Reads p h)
        (Reads-bind _ (get_i32-Reads node_id h0) (Reads-map _ (get_u32-Reads slots h1))))
