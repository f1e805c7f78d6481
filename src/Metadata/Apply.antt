-- ===== src/Metadata/Apply.antt =====
-- picomq/pico-metadata/src/apply.rs: the state transition function.
pub mod Nodes
pub mod Streams
pub mod Placement
pub mod Objects
pub mod Commit
pub mod Kv
use picomq.Prelude.{ℕ, Option, none, some, List, [], ◌∷◌}
use picomq.Metadata.Error.{Result, ok, err, ◌>>=◌, ◌>>◌}
use picomq.Metadata.Command
use picomq.Metadata.Command.{MetadataCommand, MetadataResult, Proposer, proposer}
use picomq.Metadata.State.{MetadataState}
use Nodes.{Outcome, check_proposer, register_node, set_node_slots, heartbeat, fence_node}
use Streams.{create_stream, create_streams, open_stream, trim_stream, close_stream, delete_stream}
use Placement.{place_stream, transfer_stream, complete_transfer}
use Objects.{
  allocate_producer_ids, prepare_object, expire_prepared_objects, clean_destroyed_objects,
}
use Commit.{commit_stream_set_object, compact_stream_object}
use Kv.{put_kv, put_kv_if_absent, delete_kv, delete_kv_if_matches, put_kv_if_matches}

abbrev pub checked : MetadataState → Option Proposer → Result (Unit {0})
checked s none = ok tt
checked s (some p) = check_proposer s p

-- The clone becomes the state on `Ok` alone.
abbrev pub settle : MetadataState → Outcome → MetadataState × Result MetadataResult
settle s (ok (next, result)) = (next, ok result)
settle s (err e) = (s, err e)

module _ (noop_object_id : ℕ) where
  -- The `match` of `apply_inner`.
  unfoldable pub dispatch : MetadataState → MetadataCommand → Outcome
  dispatch s (Command.register_node r) = register_node s r
  dispatch s (Command.set_node_slots _ node_id slots) = set_node_slots s node_id slots
  dispatch s (Command.heartbeat p) = heartbeat s p.node_id
  dispatch s (Command.fence_node p node_id node_epoch heartbeats) =
      fence_node s p node_id node_epoch heartbeats
  dispatch s (Command.place_stream _ stream_id node_id) = place_stream s stream_id node_id
  dispatch s (Command.create_stream _) = create_stream s
  dispatch s (Command.create_streams _ count) = create_streams s count
  dispatch s (Command.open_stream p stream_id epoch) = open_stream s p.node_id stream_id epoch
  dispatch s (Command.trim_stream p stream_id epoch new_start_offset) =
      trim_stream s p.node_id stream_id epoch new_start_offset
  dispatch s (Command.close_stream p stream_id epoch) = close_stream s p.node_id stream_id epoch
  dispatch s (Command.delete_stream p stream_id epoch) = delete_stream s p.node_id stream_id epoch
  dispatch s (Command.prepare_object _ count ttl_ms now_ms) = prepare_object s count ttl_ms now_ms
  dispatch s (Command.commit_stream_set_object p request now_ms) =
      commit_stream_set_object noop_object_id s p.node_id request now_ms
  dispatch s (Command.compact_stream_object _ request now_ms) =
      compact_stream_object noop_object_id s request now_ms
  dispatch s (Command.expire_prepared_objects _ now_ms) = expire_prepared_objects s now_ms
  dispatch s (Command.clean_destroyed_objects _ object_ids) = clean_destroyed_objects s object_ids
  dispatch s (Command.put_kv _ key value) = put_kv s key value
  dispatch s (Command.put_kv_if_absent _ key value) = put_kv_if_absent s key value
  dispatch s (Command.delete_kv _ key) = delete_kv s key
  dispatch s (Command.delete_kv_if_matches _ key expected) = delete_kv_if_matches s key expected
  dispatch s (Command.put_kv_if_matches _ key expected value) =
      put_kv_if_matches s key expected value
  dispatch s (Command.transfer_stream _ stream_id from_node to_node) =
      transfer_stream s stream_id from_node to_node
  dispatch s (Command.complete_transfer _ stream_id epoch) = complete_transfer s stream_id epoch
  dispatch s (Command.allocate_producer_ids _ count) = allocate_producer_ids s count

  unfoldable pub apply_inner : MetadataState → MetadataCommand → Outcome
  apply_inner s command = do checked s (proposer command); dispatch s command

  unfoldable pub apply : MetadataState → MetadataCommand → MetadataState × Result MetadataResult
  apply s command = settle s (apply_inner s command)
