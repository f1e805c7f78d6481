-- ===== src/Metadata/Kept/Nodes.antt =====
-- The node commands keep an invariant.
use picomq.Prelude.{
  ℕ, ◌≡◌, refl, true, inl, inr, Option, none, some, arith, int_ord, nat_ord, ltb, leb, ℤ, pos,
  negsuc, i64_min, i64_max, max_ℤ, add_i64, Option-cases,
}
use picomq.OrdMap.{get}
use picomq.Metadata.Error.{ok}
use picomq.Metadata.Error.Ensures.{Ensures, Ensures-ok, Ensures-fail_if, Ensures-bind}
use picomq.Metadata.Command.{Proposer, Registration, MetadataResult}
use picomq.Metadata.State.{NodeRow, MetadataState}
use picomq.Metadata.Apply.Nodes.{
  registered, register_node, require_node, set_node_slots, heartbeat, fence_node,
}
use picomq.Metadata.Kept.{Kept, NodeSucceeds, EpochFits}

-- The invariant of a state, as a postcondition of an operation.
abbrev pub After : (MetadataState → Type 0) → MetadataState × MetadataResult → Type 0
After P o = P o.0

pub ltb-add_i64_one :
    (e : ℤ) → leb i64_min e ≡ true → ltb e i64_max ≡ true → ltb e (add_i64 e (pos 1)) ≡ true
ltb-add_i64_one (pos n) lo hi = ground arith
ltb-add_i64_one (negsuc n) lo hi = ground arith

ltb-max_ℤ : (e r e' : ℤ) → ltb e e' ≡ true → ltb e (max_ℤ r e') ≡ true
ltb-max_ℤ e r e' h = ground arith

pub registered-succeeds :
    (r : Registration) (stored : Option NodeRow)
    → EpochFits stored
    → NodeSucceeds stored (registered r stored)
unfolding registered
registered-succeeds r none h = tt
registered-succeeds r (some node) h =
    inl (ltb-max_ℤ node.epoch r.node_epoch _ (ltb-add_i64_one node.epoch h.0 h.1))

pub require_node-eq_ok :
    (s : MetadataState) (n : ℤ) {node : NodeRow}
    → require_node s n ≡ ok node
    → get n s.nodes ≡ some node
require_node-eq_ok s n e = ground arith

-- A row that keeps the epoch, and is fenced if the stored one was.
update-succeeds :
    (s : MetadataState) (n : ℤ) {old : NodeRow} (new : NodeRow)
    → require_node s n ≡ ok old
    → new.epoch ≡ old.epoch
    → (old.fenced ≡ true → new.fenced ≡ true)
    → NodeSucceeds (get n s.nodes) new
update-succeeds s n new e p f = rw (require_node-eq_ok s n e) (inr (p, f))

module _ {P : MetadataState → Type 0} (K : Kept P) (s : MetadataState) (h : P s) where
  pub register_node-keeps :
      (r : Registration) → EpochFits (get r.node_id s.nodes) → Ensures (After P) (register_node s r)
  unfolding register_node
  register_node-keeps r fits =
      Ensures-ok (K.nodes s r.node_id _ (registered-succeeds r (get r.node_id s.nodes) fits) h)

  pub set_node_slots-keeps : (n : ℤ) (slots : ℕ) → Ensures (After P) (set_node_slots s n slots)
  unfolding set_node_slots
  set_node_slots-keeps n slots =
      Ensures-bind _ _
        λ node e. Ensures-ok (K.nodes s n _ (update-succeeds s n _ e refl (λ f. f)) h)

  pub heartbeat-keeps : (n : ℤ) → Ensures (After P) (heartbeat s n)
  unfolding heartbeat
  heartbeat-keeps n = elim (Option-cases (get n s.nodes)) [
    | inl e ↦ rw e (Ensures-ok h)
    | inr (node, e) ↦ rw e (Ensures-ok (K.nodes s n _ (rw e (inr (refl, λ f. f))) h))
  ]

  pub fence_node-keeps :
      (p : Proposer) (n epoch : ℤ) (heartbeats : ℕ)
      → Ensures (After P) (fence_node s p n epoch heartbeats)
  unfolding fence_node
  fence_node-keeps p n epoch heartbeats = Ensures-bind _ _ λ node e.
      Ensures-fail_if _ _ _
        λ _. Ensures-ok (K.nodes s n _ (update-succeeds s n _ e refl (λ _. refl)) h)
