-- ===== src/Metadata/Indexed/Always.antt =====
-- The indexes by node agree with the rows after every command.
use native.Mathlib.Nat.{le_trans, le_of_lt}
use mathlib.Core.Path.{subst}
use picomq.Prelude.{
  ℕ, ◌+◌, ◌<◌, ◌≡◌, refl, sym, ◌∙◌, ap, Option, none, some, arith, nat_ord, int_ord, pair_ord, ◌==◌,
  map_option, ℤ, u64_mod, add_u64, if◌then◌else◌,
}
use picomq.OrdMap.{OrdMap, get, insert, remove, contains_key, sum, sum-remove}
use picomq.Metadata.State.{StreamRow, MetadataState, put_stream, remove_stream, unindex_removed}
use picomq.Metadata.State.Tables.{
  put_row, put_stream-SameTables, remove_stream-SameTables, get-put_stream, get-remove_stream,
}
use picomq.Metadata.Apply.Streams.{created, fresh_stream}
use picomq.Metadata.Kept.{Kept}
use picomq.Metadata.Kept.Frame.{Same, bare}
use picomq.Metadata.Kept.Rows.{Kept_of_RowsKept}
use picomq.Metadata.Kept.Ids.{put_stream-HasIds, next-grows, remove_stream-HasIds, Same-HasIds}
use picomq.Metadata.Indexed.Steps.{opened_on, placed_at, weight, count_of, unindex-Taken}
use picomq.Metadata.Indexed.{IsIndexed, sum-weight-fits}
use picomq.Metadata.Indexed.Reindex.{
  Previous, reindex-opening, reindex-placed, reindex-counts, unindex-counts,
}

-- The row that `put_stream` stores keeps the place of the given one.
pub put-IsIndexed :
    (s : MetadataState) (new : StreamRow)
    → new.stream_id < s.next_stream_id
    → IsIndexed s
    → IsIndexed (put_stream s new)
unfolding put_stream
put-IsIndexed s new lt h =
    let f = put_stream-SameTables s new in
    let row = put_row s new in
    let ids = put_stream-HasIds s new lt h.ids in
    let p : Previous s row (get new.stream_id s.streams) = record {
      found = refl;
      own = λ old e. h.ids.own new.stream_id old e;
    } in
    let m = insert new.stream_id row s.streams in
    record {
      ids = ids;
      fits = rw f.next h.fits;
      opening = λ n i.
          reindex-opening s m row n (get new.stream_id s.streams) i p h
          ∙ sym (ap (opened_on n) (get-put_stream s new i));
      placed = λ n i.
          reindex-placed s m row n (get new.stream_id s.streams) i p h
          ∙ sym (ap (placed_at n) (get-put_stream s new i));
      counts = λ n.
          let fits =
            subst (λ m. sum (weight n) m < u64_mod) f.streams
              (sum-weight-fits n (put_stream s new) ids (rw f.next h.fits)) in
          reindex-counts s m row n (get new.stream_id s.streams) p h fits
          ∙ sym (ap (sum (weight n)) f.streams);
    }

pub create-IsIndexed :
    (s : MetadataState) → s.next_stream_id + 1 < u64_mod → IsIndexed s → IsIndexed (created s)
create-IsIndexed s fits h =
    put-IsIndexed (record s { next_stream_id = add_u64 s.next_stream_id 1 })
      (fresh_stream s.next_stream_id) (next-grows s.next_stream_id fits)
      (record {
        ids = record {
          own = h.ids.own;
          fresh = λ i row e.
              le_trans (h.ids.fresh i row e) (le_of_lt (next-grows s.next_stream_id fits));
        };
        fits = omega arith;
        opening = h.opening;
        placed = h.placed;
        counts = h.counts;
      })

pub remove-IsIndexed : (s : MetadataState) (i : ℕ) → IsIndexed s → IsIndexed (remove_stream s i)
unfolding remove_stream
remove-IsIndexed s i h =
    let f = remove_stream-SameTables s i in
    record {
      ids = remove_stream-HasIds s i h.ids;
      fits = rw f.next h.fits;
      opening = λ n j.
          go-opening n j (get i s.streams) refl ∙ sym (ap (opened_on n) (get-remove_stream s j i));
      placed = λ n j.
          go-placed n j (get i s.streams) refl ∙ sym (ap (placed_at n) (get-remove_stream s j i));
      counts = λ n. go-counts n (get i s.streams) refl ∙ sym (ap (sum (weight n)) f.streams);
    }
  where
    m : OrdMap ℕ StreamRow
    m = remove i s.streams

    go-opening :
        (n : ℤ) (j : ℕ) (previous : Option StreamRow)
        → get i s.streams ≡ previous
        → contains_key
            (n, j)
            (unindex_removed previous (record s { streams = remove i s.streams })).opening_by_node
          ≡ opened_on n (if j == i then none else get j s.streams)
    go-opening n j none e = ground (arith, h.opening n j, e, nat_ord.eq_of_cmp j i)
    go-opening n j (some old) e = ground (
      arith,
      (unindex-Taken (record s { streams = remove i s.streams }) old).opening n j,
      h.opening n j,
      e,
      nat_ord.eq_of_cmp j i,
      h.ids.own i old e,
      int_ord.eq_of_cmp n old.node_id,
      int_ord.eq_of_cmp old.node_id n,
      int_ord.cmp_refl n,
    )

    go-placed :
        (n : ℤ) (j : ℕ) (previous : Option StreamRow)
        → get i s.streams ≡ previous
        → contains_key
            (n, j)
            (unindex_removed previous (record s { streams = remove i s.streams })).placed_by_node
          ≡ placed_at n (if j == i then none else get j s.streams)
    go-placed n j none e = ground (arith, h.placed n j, e, nat_ord.eq_of_cmp j i)
    go-placed n j (some old) e = ground (
      arith,
      (unindex-Taken (record s { streams = remove i s.streams }) old).placed n j,
      h.placed n j,
      e,
      nat_ord.eq_of_cmp j i,
      h.ids.own i old e,
      int_ord.eq_of_cmp n old.node_id,
      int_ord.eq_of_cmp old.node_id n,
      int_ord.cmp_refl n,
    )

    go-counts :
        (n : ℤ) (previous : Option StreamRow)
        → get i s.streams ≡ previous
        → count_of n
            (unindex_removed previous (record s { streams = remove i s.streams })).streams_by_node
          ≡ sum (weight n) (remove i s.streams)
    go-counts n none e = ground (arith, h.counts n, e, sum-remove (weight n) i s.streams)
    go-counts n (some old) e =
        let found : get old.stream_id s.streams ≡ some old =
          ap (λ j. get j s.streams) (h.ids.own i old e) ∙ e in
        ground (
          arith,
          unindex-counts s (remove i s.streams) old n old found h,
          e,
          sum-remove (weight n) i s.streams,
        )

opened_on-bare : (n : ℤ) (o : Option StreamRow) → opened_on n (map_option bare o) ≡ opened_on n o
opened_on-bare n none = refl
opened_on-bare n (some row) = refl

placed_at-bare : (n : ℤ) (o : Option StreamRow) → placed_at n (map_option bare o) ≡ placed_at n o
placed_at-bare n none = refl
placed_at-bare n (some row) = refl

Same-IsIndexed : (s t : MetadataState) → Same s t → IsIndexed s → IsIndexed t
Same-IsIndexed s t f h = record {
  ids = Same-HasIds s t f h.ids;
  fits = rw f.next h.fits;
  opening = λ n i. rw f.opening (
      h.opening n i
      ∙ sym (opened_on-bare n (get i s.streams))
      ∙ sym (ap (opened_on n) (f.rows i))
      ∙ opened_on-bare n (get i t.streams));
  placed = λ n i. rw f.placed (
      h.placed n i
      ∙ sym (placed_at-bare n (get i s.streams))
      ∙ sym (ap (placed_at n) (f.rows i))
      ∙ placed_at-bare n (get i t.streams));
  counts = λ n. rw f.counts (h.counts n ∙ sym (f.sums (weight n) (λ row. refl)));
}

pub IsIndexed-Kept : Kept IsIndexed
IsIndexed-Kept = Kept_of_RowsKept (record {
  ids = λ s h. h.ids;
  put = λ s old new found r h. put-IsIndexed s new (h.ids.fresh new.stream_id old found) h;
  create = create-IsIndexed;
  delete = remove-IsIndexed;
  nodes = λ s n new r h. record {
    ids = record { own = h.ids.own; fresh = h.ids.fresh };
    fits = h.fits;
    opening = h.opening;
    placed = h.placed;
    counts = h.counts;
  };
  same = Same-IsIndexed;
})
