-- ===== src/Metadata/State/Tables.antt =====
-- What putting or removing a stream does to the tables of streams and nodes and to the next id.
use picomq.Prelude.{
  ℕ, ◌≡◌, refl, Option, none, some, map_or, nat_ord, int_ord, pair_ord, ◌==◌, ◌&&◌, not,
  if◌then◌else◌, Bool-cases, inl, inr,
}
use picomq.Engine.{opened, closed, StreamState}
use picomq.OrdMap.{get, insert, remove, contains_key, get-insert, get-remove}
use picomq.Metadata.State.{
  StreamRow, MetadataState, no_node, index_at, index, unindex, reindex, same_place, put_stream,
  unindex_removed, remove_stream, node_key,
}

-- The row that `put_stream` stores: the given one, with the bytes counted so far.
abbrev pub put_row : MetadataState → StreamRow → StreamRow
put_row s given = record given {
  stored_bytes = map_or 0 (λ (r : StreamRow). r.stored_bytes) (get given.stream_id s.streams);
}

-- The node indexes aside, two states with the same streams, nodes and next id.
pub record SameTables (s t : MetadataState) : Type 0 where
  pub streams : t.streams ≡ s.streams
  pub nodes : t.nodes ≡ s.nodes
  pub next : t.next_stream_id ≡ s.next_stream_id

index-SameTables : (s : MetadataState) (row : StreamRow) → SameTables s (index s row)
unfolding index
index-SameTables s row = go row.state
  where
    go : (state : StreamState) → SameTables s (index_at state s row)
    go opened = record { streams = refl; nodes = refl; next = refl }
    go closed = elim (Bool-cases (row.node_id == no_node)) [
      | inl e ↦ rw e (record { streams = refl; nodes = refl; next = refl })
      | inr e ↦ rw e (record { streams = refl; nodes = refl; next = refl })
    ]

unindex-SameTables : (s : MetadataState) (row : StreamRow) → SameTables s (unindex s row)
unfolding unindex
unindex-SameTables s row =
    elim (Bool-cases (
      not (contains_key (node_key row) s.opening_by_node)
      && not (contains_key (node_key row) s.placed_by_node))) [
        | inl e ↦ rw e (record { streams = refl; nodes = refl; next = refl })
        | inr e ↦ rw e (record { streams = refl; nodes = refl; next = refl })
      ]

reindex-SameTables :
    (previous : Option StreamRow) (s : MetadataState) (row : StreamRow)
    → SameTables s (reindex previous s row)
reindex-SameTables none s row = index-SameTables s row
reindex-SameTables (some previous) s row = elim (Bool-cases (same_place previous row)) [
  | inl e ↦ rw e (record { streams = refl; nodes = refl; next = refl })
  | inr e ↦
      let a = unindex-SameTables s previous in
      let b = index-SameTables (unindex s previous) row in
      rw e (record {
        streams = rw b.streams a.streams;
        nodes = rw b.nodes a.nodes;
        next = rw b.next a.next;
      })
]

pub put_stream-SameTables :
    (s : MetadataState) (row : StreamRow)
    → SameTables
        (record s { streams = insert row.stream_id (put_row s row) s.streams })
        (put_stream s row)
unfolding put_stream
put_stream-SameTables s row =
    reindex-SameTables (get row.stream_id s.streams)
      (record s { streams = insert row.stream_id (put_row s row) s.streams }) (put_row s row)

unindex_removed-SameTables :
    (previous : Option StreamRow) (s : MetadataState) → SameTables s (unindex_removed previous s)
unindex_removed-SameTables none s = record { streams = refl; nodes = refl; next = refl }
unindex_removed-SameTables (some previous) s = unindex-SameTables s previous

pub remove_stream-SameTables :
    (s : MetadataState) (i : ℕ)
    → SameTables (record s { streams = remove i s.streams }) (remove_stream s i)
unfolding remove_stream
remove_stream-SameTables s i =
    unindex_removed-SameTables (get i s.streams) (record s { streams = remove i s.streams })

pub get-put_stream :
    (s : MetadataState) (row : StreamRow) (i : ℕ)
    → get i (put_stream s row).streams
      ≡ (if i == row.stream_id then some (put_row s row) else get i s.streams)
get-put_stream s row i = rw (put_stream-SameTables s row).streams (get-insert _ _ _ _)

pub get-remove_stream :
    (s : MetadataState) (i j : ℕ)
    → get i (remove_stream s j).streams ≡ (if i == j then none else get i s.streams)
get-remove_stream s i j = rw (remove_stream-SameTables s j).streams (get-remove _ _ _)
