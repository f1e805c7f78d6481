-- ===== src/Metadata/Apply/Placement.antt =====
-- picomq/pico-metadata/src/apply.rs: which node a stream goes to, and transfers between nodes.
use picomq.Prelude.{
  ℕ, ◌*◌, ◌/◌, ◌%◌, Bool, false, not, ◌&&◌, ◌||◌, Option, none, some, int_ord, nat_ord, ◌==◌, ltb,
  ℤ, as_u64, u64_mod, map_or, map_option, if◌then◌else◌, for_each,
}
use picomq.Engine.{is_opened}
use picomq.OrdMap.{get, insert, remove, iter}
use picomq.Metadata.Error.{
  ok, err, ◌>>=◌, ◌>>◌, fail_if, stream_not_closed, expired_epoch, node_epoch_mismatch, redundant,
  no_live_node, unexpected,
}
use picomq.Metadata.Command.{unit, id}
use picomq.Metadata.State.{NodeRow, StreamRow, PendingTransfer, MetadataState, put_stream}
use picomq.Metadata.Apply.Nodes.{Outcome, node_live}
use picomq.Metadata.Apply.Streams.{require_stream}

-- `node.slots >= 1 && !node.fenced`
abbrev pub takes_streams : NodeRow → Bool
takes_streams node = not (node.slots == 0) && not node.fenced

-- The node and its score.
abbrev pub Winner : Type 0
Winner = Option (ℤ × ℕ)

unfoldable pub score : MetadataState → ℤ → NodeRow → ℕ
score s node_id node =
    let streams = map_or 0 (λ (c : ℕ). c) (get node_id s.streams_by_node) in
    (streams * 1000) % u64_mod / node.slots

abbrev pub beats : ℤ → ℕ → ℤ → ℕ → Bool
beats node_id score best_id best_score =
    ltb score best_score || (score == best_score && ltb node_id best_id)

abbrev pub better : Winner → ℤ → ℕ → Winner
better none node_id score = some (node_id, score)
better (some (best_id, best_score)) node_id score =
    if beats node_id score best_id best_score
    then some (node_id, score)
    else some (best_id, best_score)

-- One round of the loop of `least_loaded`.
unfoldable pub consider : MetadataState → Winner → ℤ × NodeRow → Winner
unfolding score
consider s winner (node_id, node) =
    if takes_streams node then better winner node_id (score s node_id node) else winner

unfoldable pub least_loaded : MetadataState → Option ℤ
least_loaded s = map_option (λ (w : ℤ × ℕ). w.0) (for_each (consider s) none (iter s.nodes))

-- `requested`, if that node is live and has slots.
abbrev pub requested_node : MetadataState → ℤ → Option ℤ
requested_node s node_id =
    if map_or false takes_streams (get node_id s.nodes) then some node_id else none

abbrev pub pick_node : MetadataState → Option ℤ → Option ℤ
pick_node s none = least_loaded s
pick_node s (some node_id) = requested_node s node_id

abbrev pub place_on : MetadataState → StreamRow → Option ℤ → Outcome
place_on s row none = err no_live_node
place_on s row (some winner) =
    ok (put_stream s (record row { node_id = winner }), id (as_u64 winner))

unfoldable pub place_stream : MetadataState → ℕ → Option ℤ → Outcome
unfolding require_stream node_live
place_stream s stream_id requested = do
  row ← require_stream s stream_id
  if is_opened row.state || node_live s row.node_id
      then ok (s, id (as_u64 row.node_id))
      else place_on s row (pick_node s requested)

abbrev pub same_transfer : ℤ → ℤ → PendingTransfer → Bool
same_transfer from_node to_node pending =
    pending.from_node == from_node && pending.to_node == to_node

-- The checks of `transfer_stream` on a stream that is not in transfer, and the new entry.
unfoldable pub start_transfer : MetadataState → StreamRow → ℕ → ℤ → ℤ → Outcome
start_transfer s row stream_id from_node to_node = do
  fail_if (from_node == to_node) unexpected
  fail_if (not (map_or false takes_streams (get to_node s.nodes))) (node_epoch_mismatch to_node)
  fail_if (not (is_opened row.state) || not (row.node_id == from_node)) unexpected
  ok (
    record s {
      pending_transfers =
          insert stream_id (record { from_node = from_node; to_node = to_node })
            s.pending_transfers;
    },
    unit,
  )

-- `transfer_stream` with the pending entry, if there is one.
unfoldable pub transfer_found :
    MetadataState → StreamRow → ℕ → ℤ → ℤ → Option PendingTransfer → Outcome
unfolding start_transfer
transfer_found s row stream_id from_node to_node none =
    start_transfer s row stream_id from_node to_node
transfer_found s row stream_id from_node to_node (some pending) =
    if same_transfer from_node to_node pending then ok (s, unit) else err unexpected

unfoldable pub transfer_stream : MetadataState → ℕ → ℤ → ℤ → Outcome
unfolding require_stream transfer_found
transfer_stream s stream_id from_node to_node = do
  row ← require_stream s stream_id
  transfer_found s row stream_id from_node to_node (get stream_id s.pending_transfers)

-- `complete_transfer` with its pending entry.
unfoldable pub finish_transfer : MetadataState → ℕ → ℤ → PendingTransfer → Outcome
unfolding require_stream
finish_transfer s stream_id epoch pending = do
  row ← require_stream s stream_id
  fail_if (is_opened row.state) (stream_not_closed stream_id)
  fail_if (not (row.epoch == epoch)) (expired_epoch stream_id epoch)
  let s' = put_stream s (record row { node_id = pending.to_node })
  ok (record s' { pending_transfers = remove stream_id s'.pending_transfers }, unit)

unfoldable pub complete_transfer : MetadataState → ℕ → ℤ → Outcome
unfolding finish_transfer
complete_transfer s stream_id epoch = elim (get stream_id s.pending_transfers) [
  | none ↦ err redundant
  | some pending ↦ finish_transfer s stream_id epoch pending
]
