-- ===== src/Engine.antt =====
-- The types of the stream engine (the `s3stream` crate) that the metadata plane stores and passes
-- on, with the fields that picomq/pico-metadata/src/codec.rs and snapshot.rs write and read. The
-- engine's functions are not modelled.
use picomq.Prelude.{ℕ, List, ℤ, Bool, true, false}

pub data StreamState : Type 0 where
  closed opened : StreamState

pub record StreamMetadata : Type 0 where
  pub stream_id : ℕ
  pub epoch : ℕ
  pub start_offset : ℕ
  pub end_offset : ℕ
  pub state : StreamState
  pub node_id : ℤ

pub data CompactOperations : Type 0 where
  delete keep_data deep_delete : CompactOperations

pub data S3ObjectType : Type 0 where
  stream_set stream : S3ObjectType

pub record StreamOffsetRange : Type 0 where
  pub stream_id : ℕ
  pub start_offset : ℕ
  pub end_offset : ℕ

pub record S3ObjectMetadata : Type 0 where
  pub object_id : ℕ
  pub object_type : S3ObjectType
  pub offset_ranges : List StreamOffsetRange
  pub object_size : ℕ
  pub attributes : ℕ
  pub committed_timestamp_ms : ℤ
  pub data_timestamp_ms : ℤ

pub record ObjectStreamRange : Type 0 where
  pub stream_id : ℕ
  pub epoch : ℕ
  pub start_offset : ℕ
  pub end_offset : ℕ
  pub size : ℕ

pub record StreamObject : Type 0 where
  pub object_id : ℕ
  pub object_size : ℕ
  pub stream_id : ℕ
  pub start_offset : ℕ
  pub end_offset : ℕ
  pub attributes : ℕ

pub record CommitStreamSetObjectRequest : Type 0 where
  pub object_id : ℕ
  pub object_size : ℕ
  pub attributes : ℕ
  pub stream_ranges : List ObjectStreamRange
  pub stream_objects : List StreamObject
  pub compacted_object_ids : List ℕ

pub record CompactStreamObjectRequest : Type 0 where
  pub object_id : ℕ
  pub object_size : ℕ
  pub stream_id : ℕ
  pub stream_epoch : ℕ
  pub start_offset : ℕ
  pub end_offset : ℕ
  pub source_object_ids : List ℕ
  pub operations : List CompactOperations
  pub attributes : ℕ

-- `==` on stream states
abbrev pub is_opened : StreamState → Bool
is_opened opened = true
is_opened closed = false
