-- ===== src/Metadata/Kept/Apply.antt =====
-- Every command keeps an invariant that its primitive writes keep.
use picomq.Prelude.{ℕ, refl, Option-cases, inl, inr, bytes_ord, ◌==◌}
use picomq.OrdMap.{get}
use picomq.Metadata.Error.{ok, err}
use picomq.Metadata.Error.Ensures.{Ensures, Ensures-ok, Ensures-err, Ensures-check, Ensures-if}
use picomq.Metadata.Command
use picomq.Metadata.Command.{Text, Bytes, MetadataCommand, MetadataResult, proposer}
use picomq.Metadata.State.{MetadataState}
use picomq.Metadata.Apply.{dispatch, apply_inner, settle, apply}
use picomq.Metadata.Apply.Nodes.{Outcome}
use picomq.Metadata.Apply.Kv.{
  put_kv, put_kv_if_absent, delete_kv, delete_kv_if_matches, put_kv_if_matches,
}
use picomq.Metadata.Kept.{Kept, Fits}
use picomq.Metadata.Kept.Nodes.{
  After, register_node-keeps, set_node_slots-keeps, heartbeat-keeps, fence_node-keeps,
}
use picomq.Metadata.Kept.Streams.{
  open_stream-keeps, trim_stream-keeps, close_stream-keeps, delete_stream-keeps, place_stream-keeps,
  transfer_stream-keeps, complete_transfer-keeps,
}
use picomq.Metadata.Kept.Streams.Create.{create_stream-keeps, create_streams-keeps}
use picomq.Metadata.Kept.Objects.{
  allocate_producer_ids-keeps, expire_prepared_objects-keeps, clean_destroyed_objects-keeps,
}
use picomq.Metadata.Kept.Objects.Lease.{prepare_object-keeps}
use picomq.Metadata.Kept.Commit.{commit_stream_set_object-keeps, compact_stream_object-keeps}

module _ {P : MetadataState → Type 0} (K : Kept P) (s : MetadataState) (h : P s) where
  put_kv-keeps : (key : Text) (v : Bytes) → Ensures (After P) (put_kv s key v)
  unfolding put_kv
  put_kv-keeps key v = Ensures-ok (K.store s key v h)

  delete_kv-keeps : (key : Text) → Ensures (After P) (delete_kv s key)
  unfolding delete_kv
  delete_kv-keeps key = Ensures-ok (K.unstore s key h)

  put_kv_if_absent-keeps : (key : Text) (v : Bytes) → Ensures (After P) (put_kv_if_absent s key v)
  unfolding put_kv_if_absent
  put_kv_if_absent-keeps key v = elim (Option-cases (get key s.kv)) [
    | inl e ↦ rw (e, put_kv_if_absent) (Ensures-ok (K.store s key v h))
    | inr (old, e) ↦ rw (e, put_kv_if_absent) (Ensures-ok h)
  ]

  put_kv_if_matches-keeps :
      (key : Text) (expected v : Bytes) → Ensures (After P) (put_kv_if_matches s key expected v)
  unfolding put_kv_if_matches
  put_kv_if_matches-keeps key expected v = elim (Option-cases (get key s.kv)) [
    | inl e ↦ rw (e, put_kv_if_matches) (Ensures-err _)
    | inr (old, e) ↦
        rw (e, put_kv_if_matches)
          (Ensures-if (old == expected) _ _ (λ _. Ensures-ok (K.store s key v h))
            (λ _. Ensures-err _))
  ]

  delete_kv_if_matches-keeps :
      (key : Text) (expected : Bytes) → Ensures (After P) (delete_kv_if_matches s key expected)
  unfolding delete_kv_if_matches
  delete_kv_if_matches-keeps key expected = elim (Option-cases (get key s.kv)) [
    | inl e ↦ rw (e, delete_kv_if_matches) (Ensures-err _)
    | inr (old, e) ↦
        rw (e, delete_kv_if_matches)
          (Ensures-if (old == expected) _ _ (λ _. Ensures-ok (K.unstore s key h))
            (λ _. Ensures-err _))
  ]

  dispatch-keeps :
      (noop_object_id : ℕ) (c : MetadataCommand)
      → Fits s c
      → Ensures (After P) (dispatch noop_object_id s c)
  unfolding dispatch
  dispatch-keeps noop (Command.register_node r) fits = register_node-keeps K s h r fits
  dispatch-keeps noop (Command.set_node_slots _ n slots) fits = set_node_slots-keeps K s h n slots
  dispatch-keeps noop (Command.heartbeat p) fits = heartbeat-keeps K s h p.node_id
  dispatch-keeps noop (Command.fence_node p n epoch heartbeats) fits =
      fence_node-keeps K s h p n epoch heartbeats
  dispatch-keeps noop (Command.place_stream _ i n) fits = place_stream-keeps K s h i n
  dispatch-keeps noop (Command.create_stream _) fits = create_stream-keeps K s fits h
  dispatch-keeps noop (Command.create_streams _ count) fits = create_streams-keeps K s count fits h
  dispatch-keeps noop (Command.open_stream p i epoch) fits =
      open_stream-keeps K s h p.node_id i epoch
  dispatch-keeps noop (Command.trim_stream p i epoch start) fits =
      trim_stream-keeps K s h p.node_id i epoch start
  dispatch-keeps noop (Command.close_stream p i epoch) fits =
      close_stream-keeps K s h p.node_id i epoch
  dispatch-keeps noop (Command.delete_stream p i epoch) fits =
      delete_stream-keeps K s h p.node_id i epoch
  dispatch-keeps noop (Command.prepare_object _ count ttl_ms now_ms) fits =
      prepare_object-keeps K s count ttl_ms now_ms fits h
  dispatch-keeps noop (Command.commit_stream_set_object p request now_ms) fits =
      commit_stream_set_object-keeps K noop s p.node_id request now_ms h
  dispatch-keeps noop (Command.compact_stream_object _ request now_ms) fits =
      compact_stream_object-keeps K noop s request now_ms h
  dispatch-keeps noop (Command.expire_prepared_objects _ now_ms) fits =
      expire_prepared_objects-keeps K s now_ms h
  dispatch-keeps noop (Command.clean_destroyed_objects _ ids) fits =
      clean_destroyed_objects-keeps K s ids h
  dispatch-keeps noop (Command.put_kv _ key v) fits = put_kv-keeps key v
  dispatch-keeps noop (Command.put_kv_if_absent _ key v) fits = put_kv_if_absent-keeps key v
  dispatch-keeps noop (Command.delete_kv _ key) fits = delete_kv-keeps key
  dispatch-keeps noop (Command.delete_kv_if_matches _ key expected) fits =
      delete_kv_if_matches-keeps key expected
  dispatch-keeps noop (Command.put_kv_if_matches _ key expected v) fits =
      put_kv_if_matches-keeps key expected v
  dispatch-keeps noop (Command.transfer_stream _ i from to) fits =
      transfer_stream-keeps K s h i from to
  dispatch-keeps noop (Command.complete_transfer _ i epoch) fits =
      complete_transfer-keeps K s h i epoch
  dispatch-keeps noop (Command.allocate_producer_ids _ count) fits =
      allocate_producer_ids-keeps K s count fits h

  settle-keeps : (o : Outcome) → Ensures (After P) o → P (settle s o).0
  settle-keeps (ok r) e = e.holds r refl
  settle-keeps (err x) e = h

  -- Accepted or refused, a command keeps the invariant.
  pub apply-keeps :
      (noop_object_id : ℕ) (c : MetadataCommand) → Fits s c → P (apply noop_object_id s c).0
  unfolding apply apply_inner
  apply-keeps noop c fits = settle-keeps _ (Ensures-check _ _ λ _. dispatch-keeps noop c fits)
