-- ===== src/Metadata/Registration.antt =====
-- picomq/pico-metadata/src/apply.rs: what a registration and a fence do to the liveness of
-- incarnations.
use picomq.Prelude.{
  ℕ, ◌≡◌, refl, sym, ap, ◌∙◌, Bool, true, false, not, ◌&&◌, Option, none, some, arith, int_ord,
  nat_ord, ◌==◌, ℤ, if◌then◌else◌, map_or,
}
use picomq.Metadata.Error.Ensures.{Ensures, Ensures-ok, Ensures-bind, Ensures-fail_if}
use picomq.OrdMap.{get, insert, get-insert}
use picomq.Metadata.Error.{ok, ◌>>◌, ◌>>=◌}
use picomq.Metadata.Command
use picomq.Metadata.Command.{Proposer, Registration, MetadataResult, proposer, id, unit}
use picomq.Metadata.State.{NodeRow, MetadataState}
use picomq.Metadata.Query.{is_live}
use picomq.Metadata.Apply.{apply, apply_inner, dispatch}
use picomq.Metadata.Apply.Nodes.{
  assigned_epoch, registered, register_node, check_proposer, fence_node,
}
use picomq.Metadata.Kept.{EpochFits}

-- `is_live` reads one row.
abbrev live_row : ℤ → Option NodeRow → Bool
live_row epoch o = map_or false (λ (row : NodeRow). row.epoch == epoch && not row.fenced) o

-- After a registration an incarnation of its node is live where it has the assigned epoch, and one
-- of another node where it was live before.
pub register-lives :
    (noop : ℕ) (s : MetadataState) (r : Registration) (p : Proposer)
    → is_live (apply noop s (Command.register_node r)).0 p ≡ (
        if p.node_id == r.node_id
        then assigned_epoch r.node_epoch (get r.node_id s.nodes) == p.node_epoch
        else is_live s p)
unfolding is_live apply apply_inner proposer dispatch register_node registered ◌>>◌
register-lives noop s r p =
    let row = registered r (get r.node_id s.nodes) in
    rw (get-insert p.node_id r.node_id row s.nodes) (split (p.node_id == r.node_id))
  where
    split :
        (b : Bool)
        → live_row p.node_epoch
            (if b then some (registered r (get r.node_id s.nodes)) else get p.node_id s.nodes)
          ≡ (if b
              then assigned_epoch r.node_epoch (get r.node_id s.nodes) == p.node_epoch
              else is_live s p)
    split true = ground arith
    split false = refl

-- The epoch that a registration assigns is above every one that was live on the node, so a node
-- that registers again fences itself off.
fences_row :
    (epoch node_epoch : ℤ) (o : Option NodeRow)
    → EpochFits o
    → live_row epoch o ≡ true
    → (assigned_epoch node_epoch o == epoch) ≡ false
unfolding assigned_epoch
fences_row epoch node_epoch none fits live = cc
fences_row epoch node_epoch (some row) fits live = ground arith

-- A registration ends any incarnation of its node that was live, where the stored epoch has a
-- successor in its machine type.
pub register-fences :
    (noop : ℕ) (s : MetadataState) (r : Registration) (p : Proposer)
    → EpochFits (get r.node_id s.nodes)
    → p.node_id ≡ r.node_id
    → is_live s p ≡ true
    → is_live (apply noop s (Command.register_node r)).0 p ≡ false
unfolding is_live
register-fences noop s r p fits same live =
    rw (register-lives noop s r p, same, node_eq-refl r.node_id)
      (fences_row p.node_epoch r.node_epoch (get r.node_id s.nodes) fits
        (ap (λ n. live_row p.node_epoch (get n s.nodes)) (sym same) ∙ live))
  where
    node_eq-refl : (n : ℤ) → (n == n) ≡ true
    node_eq-refl n = ground (arith, int_ord.cmp_refl n)

pub live_check :
    (s : MetadataState) (p : Proposer) → is_live s p ≡ true → check_proposer s p ≡ ok tt
unfolding check_proposer is_live ◌>>=◌ ◌>>◌
live_check s p live = ground arith

fenced_row :
    (s : MetadataState) (n : ℤ) (node : NodeRow) (epoch : ℤ)
    → live_row epoch
        (get n (record s { nodes = insert n (record node { fenced = true }) s.nodes }).nodes)
      ≡ false
fenced_row s n node epoch =
    ground (arith, get-insert n n (record node { fenced = true }) s.nodes, int_ord.cmp_refl n)

fence_node-Fences :
    (s : MetadataState) (p : Proposer) (n epoch : ℤ) (heartbeats : ℕ) (e : ℤ)
    → Ensures
        (λ (o : MetadataState × MetadataResult). live_row e (get n o.0.nodes) ≡ false)
        (fence_node s p n epoch heartbeats)
unfolding fence_node
fence_node-Fences s p n epoch heartbeats e =
    Ensures-bind _ _ λ node _. Ensures-fail_if _ _ _ λ _. Ensures-ok (fenced_row s n node e)

-- Where a fence of a node succeeds, no incarnation of that node is live after it.
pub fence-ends :
    (s t : MetadataState) (p : Proposer) (n epoch : ℤ) (heartbeats : ℕ) (r : MetadataResult) (e : ℤ)
    → fence_node s p n epoch heartbeats ≡ ok (t, r)
    → is_live t (record { node_id = n; node_epoch = e }) ≡ false
unfolding is_live
fence-ends s t p n epoch heartbeats r e done =
    (fence_node-Fences s p n epoch heartbeats e).holds (t, r) done
