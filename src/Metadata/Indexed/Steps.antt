-- ===== src/Metadata/Indexed/Steps.antt =====
-- picomq/pico-metadata/src/state.rs: what indexing and unindexing a row do to the indexes by node.
use picomq.Prelude.{
  ℕ, ◌-◌, ◌≡◌, refl, Bool, false, not, ◌&&◌, ◌||◌, Option, none, some, arith, nat_ord, int_ord,
  pair_ord, ◌==◌, map_or, ℤ, add_u64, if◌then◌else◌, Bool-cases, inl, inr,
}
use picomq.Engine.{is_opened, StreamState, opened, closed}
use picomq.OrdMap.{OrdMap, get, insert, remove, contains_key, get-insert, get-remove}
use picomq.Metadata.State.{
  StreamRow, MetadataState, index, index_at, unindex, no_node, node_key, count_up, count_down,
  one_less,
}

-- The tests by which a row is in the two indexes, and in the count, of a node.
abbrev pub opened_on : ℤ → Option StreamRow → Bool
opened_on n none = false
opened_on n (some row) = is_opened row.state && row.node_id == n

abbrev pub placed_at : ℤ → Option StreamRow → Bool
placed_at n none = false
placed_at n (some row) = not (is_opened row.state) && row.node_id == n && not (n == no_node)

abbrev pub is_indexed : StreamRow → Bool
is_indexed row = is_opened row.state || not (row.node_id == no_node)

abbrev pub weight : ℤ → StreamRow → ℕ
weight n row = if row.node_id == n && is_indexed row then 1 else 0

-- The count of a node, 0 where there is no entry.
abbrev pub count_of : ℤ → OrdMap ℤ ℕ → ℕ
count_of n m = map_or 0 (λ (c : ℕ). c) (get n m)

-- The key of the row is `(n, i)`.
abbrev pub keyed : ℤ → ℕ → StreamRow → Bool
keyed n i row = n == row.node_id && i == row.stream_id

count-up :
    (s : MetadataState) (m n : ℤ)
    → count_of n (count_up s m).streams_by_node
      ≡ (if n == m then add_u64 (count_of n s.streams_by_node) 1 else count_of n s.streams_by_node)
unfolding count_up
count-up s m n = ground (
  arith,
  get-insert n m (add_u64 (count_of m s.streams_by_node) 1) s.streams_by_node,
  int_ord.eq_of_cmp n m,
)

count-down :
    (s : MetadataState) (m n : ℤ)
    → count_of n (count_down s m).streams_by_node
      ≡ (if n == m then count_of n s.streams_by_node - 1 else count_of n s.streams_by_node)
unfolding count_down
count-down s m n = go (get m s.streams_by_node) refl
  where
    go :
        (o : Option ℕ)
        → get m s.streams_by_node ≡ o
        → count_of n (one_less m o s.streams_by_node)
          ≡ (if n == m then count_of n s.streams_by_node - 1 else count_of n s.streams_by_node)
    go none e = ground (arith, e, get-remove n m s.streams_by_node, int_ord.eq_of_cmp n m)
    go (some c) e = ground (
      arith,
      e,
      get-remove n m s.streams_by_node,
      get-insert n m (c - 1) s.streams_by_node,
      int_ord.eq_of_cmp n m,
    )

-- `(n, i)` in a key set after an insertion or a removal.
contains-insert :
    (n : ℤ) (i : ℕ) (row : StreamRow) (m : OrdMap (ℤ × ℕ) (Unit {0}))
    → contains_key (n, i) (insert (node_key row) tt m) ≡ (keyed n i row || contains_key (n, i) m)
contains-insert n i row m = ground (arith, get-insert (n, i) (node_key row) tt m)

contains-remove :
    (n : ℤ) (i : ℕ) (row : StreamRow) (m : OrdMap (ℤ × ℕ) (Unit {0}))
    → contains_key (n, i) (remove (node_key row) m) ≡ (not (keyed n i row) && contains_key (n, i) m)
contains-remove n i row m = ground (arith, get-remove (n, i) (node_key row) m)

-- What indexing a row adds, given whether it is is_open.
pub record Added (s t : MetadataState) (row : StreamRow) (is_open : Bool) : Type 0 where
  pub opening :
      (n : ℤ) (i : ℕ)
      → contains_key (n, i) t.opening_by_node
        ≡ ((is_open && keyed n i row) || contains_key (n, i) s.opening_by_node)
  pub placed :
      (n : ℤ) (i : ℕ)
      → contains_key (n, i) t.placed_by_node ≡ (
          (not is_open && not (row.node_id == no_node) && keyed n i row)
          || contains_key (n, i) s.placed_by_node)
  pub counts :
      (n : ℤ)
      → count_of n t.streams_by_node ≡ (
          if n == row.node_id && (is_open || not (row.node_id == no_node))
          then add_u64 (count_of n s.streams_by_node) 1
          else count_of n s.streams_by_node)

pub index-Added :
    (s : MetadataState) (row : StreamRow) → Added s (index s row) row (is_opened row.state)
unfolding index count_up
index-Added s row = go row.state
  where
    go : (state : StreamState) → Added s (index_at state s row) row (is_opened state)
    go opened = record {
      opening = λ n i. contains-insert n i row s.opening_by_node;
      placed = λ n i. refl;
      counts = λ n. ground (arith, count-up s row.node_id n);
    }
    go closed = elim (Bool-cases (row.node_id == no_node)) [
      | inl e ↦
          rw e (record {
            opening = λ n i. refl;
            placed = λ n i. rw e refl;
            counts = λ n. ground arith;
          })
      | inr e ↦ rw e (record {
        opening = λ n i. refl;
        placed = λ n i. rw e (contains-insert n i row s.placed_by_node);
        counts = λ n. ground (arith, count-up s row.node_id n);
      })
    ]

-- What unindexing a row takes away.
pub record Taken (s t : MetadataState) (row : StreamRow) : Type 0 where
  pub opening :
      (n : ℤ) (i : ℕ)
      → contains_key (n, i) t.opening_by_node
        ≡ (not (keyed n i row) && contains_key (n, i) s.opening_by_node)
  pub placed :
      (n : ℤ) (i : ℕ)
      → contains_key (n, i) t.placed_by_node
        ≡ (not (keyed n i row) && contains_key (n, i) s.placed_by_node)
  pub counts :
      (n : ℤ)
      → count_of n t.streams_by_node ≡ (
          if n == row.node_id
            && (contains_key (node_key row) s.opening_by_node
                || contains_key (node_key row) s.placed_by_node)
          then count_of n s.streams_by_node - 1
          else count_of n s.streams_by_node)

pub unindex-Taken : (s : MetadataState) (row : StreamRow) → Taken s (unindex s row) row
unfolding unindex count_down
unindex-Taken s row =
    let o = contains_key (node_key row) s.opening_by_node in
    let p = contains_key (node_key row) s.placed_by_node in
    elim (Bool-cases (not o && not p)) [
      | inl e ↦ rw e (record {
        opening = λ n i. contains-remove n i row s.opening_by_node;
        placed = λ n i. contains-remove n i row s.placed_by_node;
        counts = λ n. ground (arith, e);
      })
      | inr e ↦ rw e (record {
        opening = λ n i. contains-remove n i row s.opening_by_node;
        placed = λ n i. contains-remove n i row s.placed_by_node;
        counts = λ n. ground (arith, e, count-down s row.node_id n);
      })
    ]
