-- ===== src/Metadata/Command.antt =====
-- picomq/pico-metadata/src/command.rs: the replicated commands, their proposer and their results.
use picomq.Prelude.{ℕ, ℤ, Option, none, some, List}
use picomq.Engine.{StreamMetadata, CommitStreamSetObjectRequest, CompactStreamObjectRequest}
use picomq.OrdMap.{OrdMap}
use picomq.Prelude.{bytes_ord}
pub use picomq.Prelude.{Text, Bytes}

pub record Proposer : Type 0 where
  pub node_id : ℤ
  pub node_epoch : ℤ

pub record Registration : Type 0 where
  pub node_id : ℤ
  pub node_epoch : ℤ
  pub http_address : Text
  pub slots : ℕ
  pub protocol_addresses : OrdMap Text Text
  pub wal : Text

-- The arguments stand in the order of the source's fields.
pub data MetadataCommand : Type 0 where
  register_node : Registration → MetadataCommand
  set_node_slots : Proposer → (node_id : ℤ) (slots : ℕ) → MetadataCommand
  heartbeat : Proposer → MetadataCommand
  fence_node : Proposer → (node_id node_epoch : ℤ) (heartbeats : ℕ) → MetadataCommand
  place_stream : Proposer → (stream_id : ℕ) (node_id : Option ℤ) → MetadataCommand
  create_stream : Proposer → MetadataCommand
  open_stream : Proposer → (stream_id : ℕ) (epoch : ℤ) → MetadataCommand
  trim_stream : Proposer → (stream_id : ℕ) (epoch : ℤ) (new_start_offset : ℕ) → MetadataCommand
  close_stream : Proposer → (stream_id : ℕ) (epoch : ℤ) → MetadataCommand
  delete_stream : Proposer → (stream_id : ℕ) (epoch : ℤ) → MetadataCommand
  prepare_object : Proposer → (count : ℕ) (ttl_ms now_ms : ℤ) → MetadataCommand
  commit_stream_set_object :
      Proposer → CommitStreamSetObjectRequest → (now_ms : ℤ) → MetadataCommand
  compact_stream_object : Proposer → CompactStreamObjectRequest → (now_ms : ℤ) → MetadataCommand
  expire_prepared_objects : Proposer → (now_ms : ℤ) → MetadataCommand
  clean_destroyed_objects : Proposer → (object_ids : List ℕ) → MetadataCommand
  put_kv : Proposer → (key : Text) (value : Bytes) → MetadataCommand
  put_kv_if_absent : Proposer → (key : Text) (value : Bytes) → MetadataCommand
  delete_kv : Proposer → (key : Text) → MetadataCommand
  delete_kv_if_matches : Proposer → (key : Text) (expected : Bytes) → MetadataCommand
  put_kv_if_matches : Proposer → (key : Text) (expected value : Bytes) → MetadataCommand
  transfer_stream : Proposer → (stream_id : ℕ) (from_node to_node : ℤ) → MetadataCommand
  complete_transfer : Proposer → (stream_id : ℕ) (epoch : ℤ) → MetadataCommand
  create_streams : Proposer → (count : ℕ) → MetadataCommand
  allocate_producer_ids : Proposer → (count : ℕ) → MetadataCommand

unfoldable pub type_code : MetadataCommand → ℕ
type_code (create_stream _) = 1
type_code (open_stream _ _ _) = 2
type_code (trim_stream _ _ _ _) = 3
type_code (close_stream _ _ _) = 4
type_code (delete_stream _ _ _) = 5
type_code (prepare_object _ _ _ _) = 6
type_code (commit_stream_set_object _ _ _) = 7
type_code (compact_stream_object _ _ _) = 8
type_code (expire_prepared_objects _ _) = 9
type_code (register_node _) = 10
type_code (clean_destroyed_objects _ _) = 11
type_code (put_kv _ _ _) = 12
type_code (put_kv_if_absent _ _ _) = 13
type_code (delete_kv _ _) = 14
type_code (transfer_stream _ _ _ _) = 15
type_code (complete_transfer _ _ _) = 16
type_code (create_streams _ _) = 17
type_code (place_stream _ _ _) = 18
type_code (delete_kv_if_matches _ _ _) = 19
type_code (allocate_producer_ids _ _) = 20
type_code (put_kv_if_matches _ _ _ _) = 21
type_code (heartbeat _) = 22
type_code (fence_node _ _ _ _) = 23
type_code (set_node_slots _ _ _) = 24

-- `none` only for `register_node`, by which a node gets an identity.
unfoldable pub proposer : MetadataCommand → Option Proposer
proposer (register_node _) = none
proposer (set_node_slots p _ _) = some p
proposer (heartbeat p) = some p
proposer (fence_node p _ _ _) = some p
proposer (place_stream p _ _) = some p
proposer (create_stream p) = some p
proposer (open_stream p _ _) = some p
proposer (trim_stream p _ _ _) = some p
proposer (close_stream p _ _) = some p
proposer (delete_stream p _ _) = some p
proposer (prepare_object p _ _ _) = some p
proposer (commit_stream_set_object p _ _) = some p
proposer (compact_stream_object p _ _) = some p
proposer (expire_prepared_objects p _) = some p
proposer (clean_destroyed_objects p _) = some p
proposer (put_kv p _ _) = some p
proposer (put_kv_if_absent p _ _) = some p
proposer (delete_kv p _) = some p
proposer (delete_kv_if_matches p _ _) = some p
proposer (put_kv_if_matches p _ _ _) = some p
proposer (transfer_stream p _ _ _) = some p
proposer (complete_transfer p _ _) = some p
proposer (create_streams p _) = some p
proposer (allocate_producer_ids p _) = some p

pub data MetadataResult : Type 0 where
  unit : MetadataResult
  id : ℕ → MetadataResult
  count : ℕ → MetadataResult
  stream : StreamMetadata → MetadataResult
  value : Option Bytes → MetadataResult
