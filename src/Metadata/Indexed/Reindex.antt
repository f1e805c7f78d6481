-- ===== src/Metadata/Indexed/Reindex.antt =====
-- picomq/pico-metadata/src/state.rs: the indexes by node after a row is put in place of another.
use picomq.Prelude.{
  ℕ, ◌+◌, ◌<◌, ◌≡◌, refl, ◌∙◌, ap, Option, none, some, arith, nat_ord, int_ord, pair_ord, ◌==◌, ℤ,
  u64_mod, if◌then◌else◌, Bool-cases, inl, inr,
}
use picomq.OrdMap.{OrdMap, get, insert, contains_key, sum, sum-insert, sum-remove}
use picomq.Metadata.State.{StreamRow, MetadataState, reindex, same_place, unindex}
use picomq.Metadata.Indexed.Steps.{
  opened_on, placed_at, weight, count_of, index-Added, unindex-Taken,
}
use picomq.Metadata.Indexed.{IsIndexed}

-- What is stored under the id of a row before the row is put.
pub record Previous (s : MetadataState) (row : StreamRow) (previous : Option StreamRow)
    : Type 0 where
  pub found : get row.stream_id s.streams ≡ previous
  pub own : (old : StreamRow) → previous ≡ some old → old.stream_id ≡ row.stream_id

module _ (s : MetadataState) (m : OrdMap ℕ StreamRow) (row : StreamRow) (n : ℤ) where
  abbrev pub s' : MetadataState
  s' = record s { streams = m }

  pub reindex-opening :
      (previous : Option StreamRow) (i : ℕ)
      → Previous s row previous
      → IsIndexed s
      → contains_key (n, i) (reindex previous s' row).opening_by_node
        ≡ opened_on n (if i == row.stream_id then some row else get i s.streams)
  reindex-opening none i p h = ground (
    arith,
    (index-Added s' row).opening n i,
    h.opening n i,
    p.found,
    nat_ord.eq_of_cmp i row.stream_id,
    int_ord.eq_of_cmp n row.node_id,
    int_ord.eq_of_cmp row.node_id n,
    int_ord.cmp_refl n,
  )
  reindex-opening (some old) i p h = elim (Bool-cases (same_place old row)) [
    | inl same ↦ rw same (
        ground (
          arith,
          same,
          h.opening n i,
          p.found,
          nat_ord.eq_of_cmp i row.stream_id,
          int_ord.eq_of_cmp old.node_id row.node_id,
        ))
    | inr other ↦ rw other (
        ground (
          arith,
          (index-Added (unindex s' old) row).opening n i,
          (unindex-Taken s' old).opening n i,
          h.opening n i,
          p.found,
          p.own old refl,
          nat_ord.eq_of_cmp i row.stream_id,
          int_ord.eq_of_cmp n row.node_id,
          int_ord.eq_of_cmp row.node_id n,
          int_ord.cmp_refl n,
          int_ord.eq_of_cmp n old.node_id,
          int_ord.eq_of_cmp old.node_id n,
        ))
  ]

  pub reindex-placed :
      (previous : Option StreamRow) (i : ℕ)
      → Previous s row previous
      → IsIndexed s
      → contains_key (n, i) (reindex previous s' row).placed_by_node
        ≡ placed_at n (if i == row.stream_id then some row else get i s.streams)
  reindex-placed none i p h = ground (
    arith,
    (index-Added s' row).placed n i,
    h.placed n i,
    p.found,
    nat_ord.eq_of_cmp i row.stream_id,
    int_ord.eq_of_cmp n row.node_id,
    int_ord.eq_of_cmp row.node_id n,
    int_ord.cmp_refl n,
  )
  reindex-placed (some old) i p h = elim (Bool-cases (same_place old row)) [
    | inl same ↦ rw same (
        ground (
          arith,
          same,
          h.placed n i,
          p.found,
          nat_ord.eq_of_cmp i row.stream_id,
          int_ord.eq_of_cmp old.node_id row.node_id,
        ))
    | inr other ↦ rw other (
        ground (
          arith,
          (index-Added (unindex s' old) row).placed n i,
          (unindex-Taken s' old).placed n i,
          h.placed n i,
          p.found,
          p.own old refl,
          nat_ord.eq_of_cmp i row.stream_id,
          int_ord.eq_of_cmp n row.node_id,
          int_ord.eq_of_cmp row.node_id n,
          int_ord.cmp_refl n,
          int_ord.eq_of_cmp n old.node_id,
          int_ord.eq_of_cmp old.node_id n,
        ))
  ]

  -- A count without one of the rows it counts.
  pub unindex-counts :
      (old : StreamRow)
      → get old.stream_id s.streams ≡ some old
      → IsIndexed s
      → count_of n (unindex s' old).streams_by_node + weight n old ≡ sum (weight n) s.streams
  unindex-counts old found h = ground (
    arith,
    (unindex-Taken s' old).counts n,
    h.counts n,
    found,
    h.opening old.node_id old.stream_id,
    h.placed old.node_id old.stream_id,
    sum-remove (weight n) old.stream_id s.streams,
    int_ord.eq_of_cmp n old.node_id,
    int_ord.eq_of_cmp old.node_id n,
    int_ord.cmp_refl n,
    int_ord.cmp_refl old.node_id,
  )

  pub reindex-counts :
      (previous : Option StreamRow)
      → Previous s row previous
      → IsIndexed s
      → sum (weight n) (insert row.stream_id row s.streams) < u64_mod
      → count_of n (reindex previous s' row).streams_by_node
        ≡ sum (weight n) (insert row.stream_id row s.streams)
  reindex-counts none p h fits = ground (
    arith,
    (index-Added s' row).counts n,
    h.counts n,
    p.found,
    sum-insert (weight n) row.stream_id row s.streams,
    int_ord.eq_of_cmp n row.node_id,
    int_ord.eq_of_cmp row.node_id n,
    int_ord.cmp_refl n,
  )
  reindex-counts (some old) p h fits = elim (Bool-cases (same_place old row)) [
    | inl same ↦ rw same (
        ground (
          arith,
          same,
          h.counts n,
          p.found,
          sum-insert (weight n) row.stream_id row s.streams,
          int_ord.eq_of_cmp old.node_id row.node_id,
        ))
    | inr other ↦
        let found : get old.stream_id s.streams ≡ some old =
          ap (λ i. get i s.streams) (p.own old refl) ∙ p.found in
        rw other (
          ground (
            arith,
            (index-Added (unindex s' old) row).counts n,
            unindex-counts old found h,
            p.found,
            sum-insert (weight n) row.stream_id row s.streams,
            int_ord.eq_of_cmp n row.node_id,
            int_ord.eq_of_cmp row.node_id n,
            int_ord.cmp_refl n,
          ))
  ]
