-- ===== src/Metadata/State.antt =====
-- picomq/pico-metadata/src/state.rs: the rows, the state with its indexes, and the operations
-- that keep rows and indexes together. `u64` sums wrap as in a release build.
pub mod Objects
pub mod Kv
pub mod Tables
use picomq.Prelude.{
  ℕ, ◌+◌, ◌-◌, Bool, true, false, not, ◌&&◌, ◌||◌, Option, none, some, List, [], ◌∷◌, Ord, nat_ord,
  pair_ord, bytes_ord, int_ord, ◌==◌, ltb, ℤ, pos, negsuc, max_ℤ, as_u64, add_u64, sub_u64, map_or,
  if◌then◌else◌, zip, for_each, length, is_some, lex, eq_of_compare,
}
use picomq.Engine.{
  StreamState, closed, opened, is_opened, StreamMetadata, CompactOperations, StreamOffsetRange,
  S3ObjectMetadata,
}
use picomq.OrdMap.{OrdMap, empty, get, insert, remove, contains_key, update}
use picomq.Metadata.Command.{Text, Bytes}

pub record StreamRow : Type 0 where
  pub stream_id : ℕ
  pub epoch : ℤ
  pub start_offset : ℕ
  pub end_offset : ℕ
  pub state : StreamState
  pub node_id : ℤ
  pub stored_bytes : ℕ

unfoldable pub to_stream_metadata : StreamRow → StreamMetadata
to_stream_metadata row = record {
  stream_id = row.stream_id;
  epoch = as_u64 (max_ℤ row.epoch (pos 0));
  start_offset = row.start_offset;
  end_offset = row.end_offset;
  state = row.state;
  node_id = row.node_id;
}

pub record NodeRow : Type 0 where
  pub node_id : ℤ
  pub epoch : ℤ
  pub http_address : Text
  pub slots : ℕ
  pub protocol_addresses : OrdMap Text Text
  pub wal : Text
  pub heartbeats : ℕ
  pub fenced : Bool

pub record PendingTransfer : Type 0 where
  pub from_node : ℤ
  pub to_node : ℤ

pub record StreamSetObjectRow : Type 0 where
  pub node_id : ℤ
  pub object : S3ObjectMetadata
  pub range_sizes : List ℕ
  pub last_write_ms : ℤ

pub record StreamObjectRow : Type 0 where
  pub object : S3ObjectMetadata
  pub last_write_ms : ℤ

pub record ObjectSpan : Type 0 where
  pub start_offset : ℕ
  pub end_offset : ℕ
  pub bytes : ℕ
  pub last_write_ms : ℤ

-- (stream_id, start_offset, object_id)
abbrev pub StreamOffsetKey : Type 0
StreamOffsetKey = ℕ × (ℕ × ℕ)

pub record MetadataState : Type 0 where
  pub next_stream_id : ℕ
  pub streams : OrdMap ℕ StreamRow
  pub nodes : OrdMap ℤ NodeRow
  pub opening_by_node : OrdMap (ℤ × ℕ) (Unit {0})
  pub placed_by_node : OrdMap (ℤ × ℕ) (Unit {0})
  pub streams_by_node : OrdMap ℤ ℕ
  pub pending_transfers : OrdMap ℕ PendingTransfer
  pub epochs : OrdMap (ℕ × ℤ) ℕ
  pub next_producer_id : ℕ
  pub next_object_id : ℕ
  pub prepared : OrdMap ℕ ℤ
  pub prepared_by_deadline : OrdMap (ℤ × ℕ) (Unit {0})
  pub stream_set_objects : OrdMap ℕ StreamSetObjectRow
  pub sso_ranges : OrdMap StreamOffsetKey (ℕ × ℕ)
  pub sso_by_node : OrdMap (ℤ × ℕ) (Unit {0})
  pub stream_objects : OrdMap StreamOffsetKey StreamObjectRow
  pub stream_object_ids : OrdMap ℕ StreamOffsetKey
  pub mark_destroyed : OrdMap ℕ (ℕ × CompactOperations)
  pub destroyed_by_id : OrdMap ℕ ℕ
  pub next_destroyed_seq : ℕ
  pub kv : OrdMap Text Bytes
  pub kv_bytes : ℕ
  pub stored_bytes : ℕ

unfoldable pub new_state : MetadataState
new_state = record {
  next_stream_id = 0;
  streams = empty;
  nodes = empty;
  opening_by_node = empty;
  placed_by_node = empty;
  streams_by_node = empty;
  pending_transfers = empty;
  epochs = empty;
  next_producer_id = 0;
  next_object_id = 0;
  prepared = empty;
  prepared_by_deadline = empty;
  stream_set_objects = empty;
  sso_ranges = empty;
  sso_by_node = empty;
  stream_objects = empty;
  stream_object_ids = empty;
  mark_destroyed = empty;
  destroyed_by_id = empty;
  next_destroyed_seq = 0;
  kv = empty;
  kv_bytes = 0;
  stored_bytes = 0;
}

abbrev pub no_node : ℤ
no_node = negsuc 0

-- The key of a row in the node indexes.
abbrev pub node_key : StreamRow → ℤ × ℕ
node_key row = (row.node_id, row.stream_id)

unfoldable pub count_up : MetadataState → ℤ → MetadataState
count_up s node_id =
    let count = map_or 0 (λ (c : ℕ). c) (get node_id s.streams_by_node) in
    record s { streams_by_node = insert node_id (add_u64 count 1) s.streams_by_node }

abbrev pub one_less : ℤ → Option ℕ → OrdMap ℤ ℕ → OrdMap ℤ ℕ
one_less node_id none m = remove node_id m
one_less node_id (some c) m = if ltb 1 c then insert node_id (c - 1) m else remove node_id m

unfoldable pub count_down : MetadataState → ℤ → MetadataState
count_down s node_id = record s {
  streams_by_node = one_less node_id (get node_id s.streams_by_node) s.streams_by_node;
}

abbrev pub index_at : StreamState → MetadataState → StreamRow → MetadataState
index_at opened s row =
    count_up (record s { opening_by_node = insert (node_key row) tt s.opening_by_node }) row.node_id
index_at closed s row =
    if row.node_id == no_node
    then s
    else count_up (record s { placed_by_node = insert (node_key row) tt s.placed_by_node })
        row.node_id

unfoldable pub index : MetadataState → StreamRow → MetadataState
unfolding count_up
index s row = index_at row.state s row

unfoldable pub unindex : MetadataState → StreamRow → MetadataState
unfolding count_down
unindex s row =
    let was_opened = contains_key (node_key row) s.opening_by_node in
    let was_placed = contains_key (node_key row) s.placed_by_node in
    let s' = record s {
      opening_by_node = remove (node_key row) s.opening_by_node;
      placed_by_node = remove (node_key row) s.placed_by_node;
    } in
    if not was_opened && not was_placed then s' else count_down s' row.node_id

abbrev pub same_state : StreamState → StreamState → Bool
same_state opened b = is_opened b
same_state closed b = not (is_opened b)

-- `(previous.state, previous.node_id) == (row.state, row.node_id)`
abbrev pub same_place : StreamRow → StreamRow → Bool
same_place previous row = same_state previous.state row.state && previous.node_id == row.node_id

abbrev pub reindex : Option StreamRow → MetadataState → StreamRow → MetadataState
reindex none s row = index s row
reindex (some previous) s row =
    if same_place previous row then s else index (unindex s previous) row

unfoldable pub put_stream : MetadataState → StreamRow → MetadataState
unfolding index unindex
put_stream s given =
    let previous = get given.stream_id s.streams in
    let row = record given {
      stored_bytes = map_or 0 (λ (r : StreamRow). r.stored_bytes) previous;
    } in
    reindex previous (record s { streams = insert row.stream_id row s.streams }) row

abbrev pub unindex_removed : Option StreamRow → MetadataState → MetadataState
unindex_removed none s = s
unindex_removed (some previous) s = unindex s previous

unfoldable pub remove_stream : MetadataState → ℕ → MetadataState
unfolding unindex
remove_stream s stream_id =
    unindex_removed (get stream_id s.streams) (record s { streams = remove stream_id s.streams })
