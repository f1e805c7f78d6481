-- ===== src/Metadata/Indexed.antt =====
-- picomq/pico-metadata/src/state.rs: the indexes by node agree with the stream rows.
pub mod Steps
pub mod Reindex
pub mod Always
use native.Mathlib.Nat.{le_trans, le_of_lt}
use mathlib.Core.Path.{subst}
use picomq.Prelude.{
  ℕ, ◌+◌, ◌-◌, ◌<◌, ◌≤◌, ◌≡◌, refl, sym, ◌∙◌, ap, Bool, true, false, not, ◌&&◌, ◌||◌, Option, none,
  some, arith, nat_ord, int_ord, pair_ord, ◌==◌, eq_of_test, map_option, map_or, ltb, ℤ, u64_mod,
  add_u64, if◌then◌else◌, Bool-cases, Option-cases, inl, inr,
}
use picomq.Engine.{is_opened, StreamState, opened, closed}
use picomq.OrdMap.{
  OrdMap, get, insert, remove, contains_key, get-insert, get-remove, sum, sum-insert, sum-remove,
  sum-le,
}
use picomq.Metadata.State.{
  StreamRow, MetadataState, put_stream, remove_stream, reindex, unindex_removed, same_place, index,
  unindex, no_node, node_key,
}
use picomq.Metadata.State.Tables.{
  put_row, SameTables, put_stream-SameTables, remove_stream-SameTables, get-put_stream,
  get-remove_stream,
}
use picomq.Metadata.Apply.Streams.{created, fresh_stream}
use picomq.Metadata.Kept.{Kept, HasIds}
use picomq.Metadata.Kept.Frame.{Same, bare}
use picomq.Metadata.Kept.Rows.{RowsKept, Kept_of_RowsKept}
use Steps.{
  opened_on, placed_at, is_indexed, weight, count_of, keyed, Added, index-Added, Taken,
  unindex-Taken,
}

pub record IsIndexed (s : MetadataState) : Type 0 where
  pub ids : HasIds s
  pub fits : s.next_stream_id < u64_mod
  pub opening :
      (n : ℤ) (i : ℕ) → contains_key (n, i) s.opening_by_node ≡ opened_on n (get i s.streams)
  pub placed :
      (n : ℤ) (i : ℕ) → contains_key (n, i) s.placed_by_node ≡ placed_at n (get i s.streams)
  pub counts : (n : ℤ) → count_of n s.streams_by_node ≡ sum (weight n) s.streams

-- No count wraps: there are fewer streams than ids.
weight-le : (n : ℤ) (row : StreamRow) → weight n row ≤ 1
weight-le n row = ground arith

pub sum-weight-fits :
    (n : ℤ) (s : MetadataState)
    → HasIds s
    → s.next_stream_id < u64_mod
    → sum (weight n) s.streams < u64_mod
sum-weight-fits n s ids fits =
    omega (arith, fits, sum-le (weight n) s.next_stream_id s.streams (weight-le n) ids.fresh)
