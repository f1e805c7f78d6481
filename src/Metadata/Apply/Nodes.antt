-- ===== src/Metadata/Apply/Nodes.antt =====
-- picomq/pico-metadata/src/apply.rs: node registration, heartbeats, fencing, and the checks of a
-- command's proposer and of a stream's owner.
use picomq.Prelude.{
  ℕ, Bool, true, false, not, ◌&&◌, ◌||◌, Option, none, some, int_ord, nat_ord, ◌==◌, ℤ, pos, max_ℤ,
  as_u64, add_i64, add_u64, map_or, map_option, if◌then◌else◌, is_empty, bytes_ord,
}
use picomq.OrdMap.{get, insert, update, len}
use picomq.Metadata.Error.{
  Result, ok, err, ◌>>=◌, ◌>>◌, fail_if, node_epoch_mismatch, redundant, stream_fenced,
}
use picomq.Metadata.Command.{Proposer, Registration, MetadataResult, unit, id}
use picomq.Metadata.State.{StreamRow, NodeRow, MetadataState}

-- What an operation returns: the next state with the result, or an error. `apply` works on a
-- clone, so the state that an error leaves behind is never seen and is not modelled.
abbrev pub Outcome : Type 0
Outcome = Result (MetadataState × MetadataResult)

unfoldable pub kept {ℓ} : {T : Type ℓ} → T → Bool → Option T → T
kept given unset none = given
kept given unset (some stored) = if unset then stored else given

-- The epoch that a registration assigns.
unfoldable pub assigned_epoch : ℤ → Option NodeRow → ℤ
assigned_epoch node_epoch none = node_epoch
assigned_epoch node_epoch (some node) = max_ℤ node_epoch (add_i64 node.epoch (pos 1))

unfoldable pub registered : Registration → Option NodeRow → NodeRow
unfolding kept assigned_epoch
registered r stored = record {
  node_id = r.node_id;
  epoch = assigned_epoch r.node_epoch stored;
  http_address =
      kept r.http_address (is_empty r.http_address)
        (map_option (λ (node : NodeRow). node.http_address) stored);
  slots = r.slots;
  protocol_addresses =
      kept r.protocol_addresses (len r.protocol_addresses == 0)
        (map_option (λ (node : NodeRow). node.protocol_addresses) stored);
  wal = kept r.wal (is_empty r.wal) (map_option (λ (node : NodeRow). node.wal) stored);
  heartbeats = map_or 0 (λ (node : NodeRow). node.heartbeats) stored;
  fenced = false;
}

unfoldable pub register_node : MetadataState → Registration → Outcome
unfolding registered
register_node s r =
    let row = registered r (get r.node_id s.nodes) in
    ok (record s { nodes = insert r.node_id row s.nodes }, id (as_u64 row.epoch))

abbrev pub require_node : MetadataState → ℤ → Result NodeRow
require_node s node_id = elim (get node_id s.nodes) [
  | none ↦ err (node_epoch_mismatch node_id)
  | some node ↦ ok node
]

unfoldable pub set_node_slots : MetadataState → ℤ → ℕ → Outcome
set_node_slots s node_id slots = do
  node ← require_node s node_id
  ok (record s { nodes = insert node_id (record node { slots = slots }) s.nodes }, unit)

unfoldable pub heartbeat : MetadataState → ℤ → Outcome
heartbeat s node_id = ok (
  record s {
    nodes =
        update node_id (λ (node : NodeRow). record node { heartbeats = add_u64 node.heartbeats 1 })
          s.nodes;
  },
  unit,
)

-- `==` on proposers
abbrev pub same_proposer : Proposer → Proposer → Bool
same_proposer a b = a.node_id == b.node_id && a.node_epoch == b.node_epoch

unfoldable pub fence_node : MetadataState → Proposer → ℤ → ℤ → ℕ → Outcome
fence_node s proposer node_id node_epoch heartbeats = do
  let leaving = same_proposer proposer (record { node_id = node_id; node_epoch = node_epoch })
  node ← require_node s node_id
  fail_if
      (node.fenced
        || not (node.epoch == node_epoch)
        || (not leaving && not (node.heartbeats == heartbeats)))
      redundant
  ok (record s { nodes = insert node_id (record node { fenced = true }) s.nodes }, unit)

unfoldable pub check_proposer : MetadataState → Proposer → Result (Unit {0})
check_proposer s proposer = do
  node ← require_node s proposer.node_id
  fail_if (not (node.epoch == proposer.node_epoch)) (node_epoch_mismatch proposer.node_id)
  fail_if node.fenced (node_epoch_mismatch proposer.node_id)

-- `state.nodes.get(&node_id).is_some_and(|node| !node.fenced)`
unfoldable pub node_live : MetadataState → ℤ → Bool
node_live s node_id = map_or false (λ (node : NodeRow). not node.fenced) (get node_id s.nodes)

unfoldable pub check_owner : MetadataState → StreamRow → ℤ → Result (Unit {0})
unfolding node_live
check_owner s row node_id =
    fail_if (not (row.node_id == node_id || not (node_live s row.node_id)))
      (stream_fenced row.stream_id row.epoch)
