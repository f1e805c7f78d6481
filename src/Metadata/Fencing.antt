-- ===== src/Metadata/Fencing.antt =====
-- What a log never undoes: stream epochs and starts, deleted ids, and fenced incarnations.
use mathlib.Core.Path.{subst}
use picomq.Prelude.{
  ℕ, ◌<◌, ◌≤◌, ◌≡◌, refl, Bool, true, false, Option, none, some, arith, nat_ord, int_ord, ltb, leb,
  ℤ, inl, inr, map_or, ◌==◌, not, ◌&&◌,
}
use picomq.Engine.{is_opened}
use picomq.OrdMap.{get, get-empty}
use picomq.Metadata.Error.{err, ◌>>◌, node_epoch_mismatch}
use picomq.Metadata.Command.{Proposer, MetadataCommand, proposer}
use picomq.Metadata.State.{StreamRow, NodeRow, MetadataState, new_state}
use picomq.Metadata.Query.{is_live}
use picomq.Metadata.Apply.{apply, apply_inner}
use picomq.Metadata.Apply.Nodes.{check_proposer}
use picomq.Metadata.Kept.{HasIds, RowSucceeds, NodeSucceeds}
use picomq.Metadata.Lineage.{Lineage, Lineage-refl, Lineage-Kept, StreamLater, NodeLater}
use picomq.Metadata.Log.{Log, Log-keeps}

pub not_found {ℓ} : {A : Type ℓ} (o : Option A) (a : A) → o ≡ none → o ≡ some a → ⊥
not_found o a e f = cc

no_streams : (i : ℕ) → get i new_state.streams ≡ none
unfolding new_state
no_streams i = get-empty i

pub new_state-HasIds : HasIds new_state
new_state-HasIds = record {
  own = λ i row e. absurd (not_found _ row (no_streams i) e);
  fresh = λ i row e. absurd (not_found _ row (no_streams i) e);
}

-- `is_live` reads one row.
abbrev live_row : ℤ → Option NodeRow → Bool
live_row epoch o = map_or false (λ (row : NodeRow). row.epoch == epoch && not row.fenced) o

dead_check :
    (s : MetadataState) (p : Proposer)
    → live_row p.node_epoch (get p.node_id s.nodes) ≡ false
    → check_proposer s p ≡ err (node_epoch_mismatch p.node_id)
unfolding check_proposer ◌>>◌
dead_check s p dead = ground arith

-- A row that is not live for an epoch it has reached, and a later row.
dead_row :
    (epoch : ℤ) (old new : NodeRow)
    → leb epoch old.epoch ≡ true
    → live_row epoch (some old) ≡ false
    → NodeSucceeds (some old) new
    → live_row epoch (some new) ≡ false
dead_row epoch old new h dead r = ground arith

later_row :
    (epoch : ℤ) (old new : NodeRow)
    → leb epoch old.epoch ≡ true
    → NodeSucceeds (some old) new
    → leb epoch new.epoch ≡ true
later_row epoch old new h r = ground arith

-- The rows of one node at three times.
dead_for_good :
    (epoch : ℤ) (a b c : Option NodeRow)
    → live_row epoch a ≡ true
    → NodeLater a b
    → live_row epoch b ≡ false
    → NodeLater b c
    → live_row epoch c ≡ false
dead_for_good epoch none b c l ab d bc = cc
dead_for_good epoch (some a) none c l ab d bc = absurd ab
dead_for_good epoch (some a) (some b) none l ab d bc = absurd bc
dead_for_good epoch (some a) (some b) (some c) l ab d bc =
    dead_row epoch b c (later_row epoch a b (reached a l) ab) d bc
  where
    reached : (a : NodeRow) → live_row epoch (some a) ≡ true → leb epoch a.epoch ≡ true
    reached a l = ground (arith, int_ord.eq_of_cmp a.epoch epoch, int_ord.cmp_refl epoch)

-- Rows of one stream that are both open.
opened_twice :
    (old new : StreamRow)
    → RowSucceeds old new
    → old.epoch ≡ new.epoch
    → is_opened new.state ≡ true
    → (is_opened old.state ≡ true) × (new.node_id ≡ old.node_id)
opened_twice old new r same o = elim r.epoch_grows [
  | inl lt ↦ absurd (ltb-irrefl _ _ same lt)
  | inr (_, f) ↦ f o
]
  where
    ltb-irrefl : (a b : ℤ) → a ≡ b → ltb a b ≡ true → ⊥
    ltb-irrefl a b e h = ground (arith, int_ord.cmp_refl a)

epoch_le : (old new : StreamRow) → RowSucceeds old new → leb old.epoch new.epoch ≡ true
epoch_le old new r = elim r.epoch_grows [
  | inl lt ↦ ground arith
  | inr (e, _) ↦ rw e (ground (arith, int_ord.cmp_refl new.epoch))
]

succeeds :
    (o p : Option StreamRow) (old new : StreamRow)
    → o ≡ some old
    → p ≡ some new
    → StreamLater o p
    → RowSucceeds old new
succeeds o p old new e f h = subst (StreamLater (some old)) f (subst (λ x. StreamLater x p) e h)

stays_none : (o p : Option StreamRow) → o ≡ none → StreamLater o p → p ≡ none
stays_none o none e h = refl
stays_none o (some new) e h = absurd (subst (λ x. StreamLater x (some new)) e h)

module _ (noop : ℕ) where
  -- A command whose proposer is not live leaves the state as it is, and its error names the node.
  pub apply-dead :
      (s : MetadataState) (p : Proposer) (c : MetadataCommand)
      → proposer c ≡ some p
      → is_live s p ≡ false
      → apply noop s c ≡ (s, err (node_epoch_mismatch p.node_id))
  unfolding apply apply_inner is_live ◌>>◌
  apply-dead s p c from dead = rw (from, dead_check s p dead) refl

  Log-Lineage : {s t : MetadataState} → HasIds s → Log noop s t → Lineage s t
  Log-Lineage {s} ids log = Log-keeps (Lineage-Kept s) noop log (Lineage-refl s ids)

  -- An incarnation that is live at one state, whose streams stand under their ids, and not live at a
  -- later state of the log gets no command through at any state after that.
  pub dead-for-good :
      {s t u : MetadataState} (p : Proposer) (c : MetadataCommand)
      → HasIds s
      → is_live s p ≡ true
      → Log noop s t
      → is_live t p ≡ false
      → Log noop t u
      → proposer c ≡ some p
      → apply noop u c ≡ (u, err (node_epoch_mismatch p.node_id))
  unfolding is_live
  dead-for-good {s} {t} {u} p c ids live log dead rest from =
      let st = Log-Lineage ids log in
      let tu = Log-Lineage st.ids rest in
      apply-dead u p c from (
        dead_for_good p.node_epoch (get p.node_id s.nodes) (get p.node_id t.nodes)
          (get p.node_id u.nodes) live (st.nodes p.node_id) dead (tu.nodes p.node_id))

  -- The epoch and the start of a stream that is there at two states of a log, the first with its
  -- streams under their ids, do not fall from one to the other.
  pub stream-grows :
      {s t : MetadataState} (i : ℕ) (old new : StreamRow)
      → HasIds s
      → get i s.streams ≡ some old
      → Log noop s t
      → get i t.streams ≡ some new
      → (leb old.epoch new.epoch ≡ true) × (old.start_offset ≤ new.start_offset)
  stream-grows i old new ids found log later =
      let r =
        succeeds _ _ old new found later
          ((Log-Lineage ids log).streams i (ids.fresh i old found)) in
      (epoch_le old new r, r.start_grows)

  -- Where a stream is there at two states of a log, the first with its streams under their ids, with
  -- the same epoch, and is open at the second, it was open at the first, on the same node.
  pub one-writer :
      {s t : MetadataState} (i : ℕ) (old new : StreamRow)
      → HasIds s
      → get i s.streams ≡ some old
      → Log noop s t
      → get i t.streams ≡ some new
      → old.epoch ≡ new.epoch
      → is_opened new.state ≡ true
      → (is_opened old.state ≡ true) × (new.node_id ≡ old.node_id)
  one-writer i old new ids found log later same o =
      opened_twice old new
        (succeeds _ _ old new found later ((Log-Lineage ids log).streams i (ids.fresh i old found)))
        same o

  -- A stream id that has been given out and has no stream, at a state with its streams under their
  -- ids, has none at any later state of the log.
  pub deleted-for-good :
      {s t : MetadataState} (i : ℕ)
      → HasIds s
      → i < s.next_stream_id
      → get i s.streams ≡ none
      → Log noop s t
      → get i t.streams ≡ none
  deleted-for-good {s} {t} i ids given gone log =
      stays_none (get i s.streams) (get i t.streams) gone ((Log-Lineage ids log).streams i given)
