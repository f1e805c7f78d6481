-- ===== src/Metadata/Tests/Commands.antt =====
-- The theorems on single commands at the states of a small log.
use picomq.Prelude.{
  ℕ, ◌≡◌, refl, true, false, ◌&&◌, none, some, [], ◌∷◌, ℤ, pos, int_ord, nat_ord, bytes_ord,
  pair_ord, ◌==◌, map_or, if◌then◌else◌,
}
use picomq.Engine.{closed, opened}
use picomq.OrdMap.{get, insert, empty, update, len, scan, remove}
use picomq.Metadata.Command
use picomq.Metadata.Command.{proposer, MetadataResult, Text, Bytes, unit, stream, id, value}
use picomq.Metadata.Error.{ok, ◌>>◌, ◌>>=◌}
use picomq.Metadata.State.{
  StreamRow, NodeRow, MetadataState, new_state, put_stream, remove_stream, to_stream_metadata,
}
use picomq.Metadata.Query.{is_live, get_kv}
use picomq.Metadata.Apply.{apply, apply_inner, dispatch}
use picomq.Metadata.Apply.Nodes.{
  register_node, registered, assigned_epoch, kept, check_proposer, heartbeat, check_owner,
}
use picomq.Metadata.Apply.Streams.{
  create_stream, open_stream, open_newer, require_stream, delete_stream, delete_found,
  forget_stream, close_stream,
}
use picomq.Metadata.Apply.Placement.{
  takes_streams, least_loaded, score, beats, transfer_stream, complete_transfer,
}
use picomq.Metadata.Apply.Objects.{expire_prepared_objects}
use picomq.Metadata.Reachable.{reachable-IsLeased}
use picomq.Metadata.Leases.Effects.{overdue, expire-removes}
use picomq.Metadata.LeastLoaded.{least_loaded-best}
use picomq.Metadata.Transfer.{open-owns, transfer-moves}
use picomq.Metadata.KvEffects.{holds, put_if_matches-reads}
use picomq.Metadata.Tests.{
  a, after, s₁, s₂, leasing, s₄, open_row, fresh_row, node_a, log_leasing, live_stored, key, one,
  stored, found₂, found₄,
}

abbrev opened_row : StreamRow
opened_row = record fresh_row { epoch = pos 3; state = opened; node_id = pos 1 }

open-owns_example :
    (t : MetadataState) × (open_stream s₂ (pos 1) 0 (pos 3)
      ≡ ok (t, stream (to_stream_metadata opened_row)))
    × (get 0 t.streams ≡ some opened_row)
    × (get (0, pos 3) t.epochs ≡ some 0)
open-owns_example = open-owns s₂ (pos 1) 0 (pos 3) fresh_row found₂ refl refl refl

no_transfer : get 0 s₄.pending_transfers ≡ none
unfolding new_state get insert empty update apply apply_inner proposer dispatch register_node
    registered kept assigned_epoch check_proposer is_live create_stream open_stream open_newer
    require_stream put_stream heartbeat delete_stream delete_found check_owner forget_stream
    remove_stream len scan remove ◌>>◌
no_transfer = refl

b_takes : map_or false takes_streams (get (pos 2) s₄.nodes) ≡ true
unfolding new_state get insert empty update apply apply_inner proposer dispatch register_node
    registered kept assigned_epoch check_proposer is_live create_stream open_stream open_newer
    require_stream put_stream heartbeat delete_stream delete_found check_owner forget_stream
    remove_stream len scan remove ◌>>◌
b_takes = refl

transfer-moves_example :
    (t : MetadataState) × ((do
      (u, _) ← transfer_stream s₄ 0 (pos 1) (pos 2)
      (v, _) ← close_stream u (pos 1) 0 (pos 1)
      complete_transfer v 0 (pos 1))
      ≡ ok (t, unit))
    × (get 0 t.streams ≡ some (record open_row { state = closed; node_id = pos 2 }))
    × (get 0 t.pending_transfers ≡ none)
transfer-moves_example =
    transfer-moves s₄ 0 open_row (pos 1) (pos 2) found₄ refl refl refl refl no_transfer b_takes

abbrev row_a : NodeRow
row_a = registered node_a none

found_a : get (pos 1) s₁.nodes ≡ some row_a
unfolding new_state get insert empty update apply apply_inner proposer dispatch register_node
    registered kept assigned_epoch check_proposer is_live create_stream open_stream open_newer
    require_stream put_stream heartbeat delete_stream delete_found check_owner forget_stream
    remove_stream len scan remove ◌>>◌
found_a = refl

a_takes : takes_streams row_a ≡ true
unfolding registered
a_takes = refl

least_loaded-best_example :
    (b : ℤ) × (row : NodeRow) × (least_loaded s₁ ≡ some b)
    × (get b s₁.nodes ≡ some row)
    × (takes_streams row ≡ true)
    × (beats (pos 1) (score s₁ (pos 1) row_a) b (score s₁ b row) ≡ false)
least_loaded-best_example = least_loaded-best s₁ (pos 1) row_a found_a a_takes

expire-removes_example :
    (t : MetadataState) × (c : ℕ) × (expire_prepared_objects leasing (pos 20)
      ≡ ok (t, MetadataResult.count c))
    × ((j : ℕ)
        → get j t.prepared
          ≡ (if overdue (pos 20) (get j leasing.prepared) then none else get j leasing.prepared))
expire-removes_example = expire-removes leasing (pos 20) (reachable-IsLeased 0 log_leasing)

abbrev two : Bytes
two = 50 ∷ []

put_if_matches-reads_example :
    get_kv (after stored (Command.put_kv_if_matches a key one two)) key
    ≡ (if key == key && holds one (get_kv stored key) then some two else get_kv stored key)
put_if_matches-reads_example = put_if_matches-reads 0 stored a live_stored key key one two
