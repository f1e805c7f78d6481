-- ===== src/Metadata/Reachable.antt =====
-- The invariants of every state that a log reaches from the empty one.
use picomq.Prelude.{
  ◌≡◌, true, is_some, ℤ, ℕ, refl, arith, int_ord, nat_ord, bytes_ord, pair_ord, none,
}
use picomq.OrdMap.{get, empty, sum_by}
use picomq.Metadata.State.{MetadataState, new_state}
use picomq.Metadata.Indexed.{IsIndexed}
use picomq.Metadata.Indexed.Always.{IsIndexed-Kept}
use picomq.Metadata.Leases.{IsLeased, IsLeased-Kept}
use picomq.Metadata.Committed.{IsCommitted}
use picomq.Metadata.Committed.Always.{IsCommitted-Kept}
use picomq.Metadata.KvBytes.{IsCounted, IsCounted-Kept}
use picomq.Metadata.SetIndex.{IsSetIndexed, IsSetIndexed-Kept, get_server_objects-found}
use picomq.Metadata.Query.{get_server_objects}
use picomq.Metadata.Fencing.{new_state-HasIds, not_found}
use picomq.Metadata.Log.{Log, Log-keeps}

new_state-IsIndexed : IsIndexed new_state
unfolding new_state get empty sum_by
new_state-IsIndexed = record {
  ids = new_state-HasIds;
  fits = omega arith;
  opening = λ n i. refl;
  placed = λ n i. refl;
  counts = λ n. refl;
}

new_state-IsLeased : IsLeased new_state
unfolding new_state get empty
new_state-IsLeased = record {
  fits = omega arith;
  agree = λ d i. refl;
  fresh = λ i d e. absurd (not_found none d refl e);
}

new_state-IsCommitted : IsCommitted new_state
unfolding new_state get empty
new_state-IsCommitted = record {
  set_own = λ i row e. absurd (not_found none row refl e);
  apart = λ i key e. refl;
  key_own = λ i key e. absurd (not_found none key refl e);
  row_of = λ i key e. absurd (not_found none key refl e);
  id_of = λ key row e. absurd (not_found none row refl e);
  row_own = λ key row e. absurd (not_found none row refl e);
}

new_state-IsCounted : IsCounted new_state
unfolding new_state empty sum_by
new_state-IsCounted = refl

new_state-IsSetIndexed : IsSetIndexed new_state
unfolding new_state get empty
new_state-IsSetIndexed = record { agree = λ n i. refl }

module _ (noop : ℕ) {t : MetadataState} (log : Log noop new_state t) where
  -- In every reachable state the two indexes by node hold exactly the streams that are open, or
  -- closed and placed, on the node, and the count of a node is the number of both.
  pub reachable-IsIndexed : IsIndexed t
  reachable-IsIndexed = Log-keeps IsIndexed-Kept noop log new_state-IsIndexed

  -- In every reachable state the leases and their index by deadline agree, and every leased id is
  -- below the next one to be given out.
  pub reachable-IsLeased : IsLeased t
  reachable-IsLeased = (Log-keeps IsLeased-Kept noop log (new_state-HasIds, new_state-IsLeased)).1

  -- In every reachable state each object id has one row at most, among stream-set and stream
  -- objects together; the two tables of stream objects point at each other, and a row stands
  -- under the key of its own range.
  pub reachable-IsCommitted : IsCommitted t
  reachable-IsCommitted =
      (Log-keeps IsCommitted-Kept noop log (new_state-HasIds, new_state-IsCommitted)).1

  -- In every reachable state the byte counter of the key-value table is the number of bytes in its
  -- keys and values, modulo 2^64.
  pub reachable-IsCounted : IsCounted t
  reachable-IsCounted =
      (Log-keeps IsCounted-Kept noop log (new_state-HasIds, new_state-IsCounted)).1

  -- In every reachable state the index of stream-set objects by node holds exactly the objects that
  -- the node has committed, and the query for the objects of a node finds each of them: it does not
  -- panic.
  pub reachable-IsSetIndexed : (n : ℤ) → IsSetIndexed t × (is_some (get_server_objects t n) ≡ true)
  reachable-IsSetIndexed n =
      let h = (Log-keeps IsSetIndexed-Kept noop log (new_state-HasIds, new_state-IsSetIndexed)).1 in
      (h, get_server_objects-found t n h)
