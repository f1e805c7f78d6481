-- ===== src/Metadata/Kept/Rest.antt =====
-- An invariant that looks at neither streams nor nodes: the writes to both keep it of themselves.
use native.Mathlib.Nat.{le_trans, le_of_lt}
use mathlib.Core.Path.{subst}
use picomq.Prelude.{
  ℕ, ◌+◌, ◌<◌, ◌≡◌, sym, false, none, some, int_ord, nat_ord, pair_ord, ℤ, u64_mod, add_u64, map_or,
}
use picomq.Engine.{CompactOperations, StreamObject}
use picomq.OrdMap.{OrdMap, get}
use picomq.Metadata.Command.{Text, Bytes}
use picomq.Metadata.State.{
  NodeRow, PendingTransfer, StreamSetObjectRow, MetadataState, put_stream, remove_stream,
}
use picomq.Metadata.State.Objects.{
  remove_prepared, put_stream_set_object, remove_stream_set_object, remove_stream_object,
  remove_destroyed,
}
use picomq.Metadata.State.Kv.{put_kv, remove_kv}
use picomq.Metadata.Apply.Streams.{created, fresh_stream, mark_destroyed}
use picomq.Metadata.Apply.Objects.{insert_stream_object, another_key}
use picomq.Metadata.Apply.Commit.{object_key}
use picomq.Metadata.Kept.{Kept, HasIds, leased}
use picomq.Metadata.Kept.Rows.{Kept_of_RowsKept}
use picomq.Metadata.Kept.Only.{streams_of, put_stream-Only, remove_stream-Only}
use picomq.Metadata.Kept.Ids.{put_stream-HasIds, remove_stream-HasIds, Same-HasIds, next-grows}

pub HasIds-Kept : Kept HasIds
HasIds-Kept = Kept_of_RowsKept (record {
  ids = λ s h. h;
  put = λ s old new found r h. put_stream-HasIds s new (h.fresh new.stream_id old found) h;
  create = λ s fits h.
      put_stream-HasIds (record s { next_stream_id = add_u64 s.next_stream_id 1 })
        (fresh_stream s.next_stream_id) (next-grows s.next_stream_id fits)
        (record {
          own = h.own;
          fresh =
              λ i row e. le_trans (h.fresh i row e) (le_of_lt (next-grows s.next_stream_id fits));
        });
  delete = remove_stream-HasIds;
  nodes = λ s n new r h. record { own = h.own; fresh = h.fresh };
  same = Same-HasIds;
})

pub record RestKept (Q : MetadataState → Type 0) : Type 0 where
  pub rows : (s t : MetadataState) → Q s → Q (streams_of s t)
  pub next : (s : MetadataState) (n : ℕ) → Q s → Q (record s { next_stream_id = n })
  pub nodes : (s : MetadataState) (m : OrdMap ℤ NodeRow) → Q s → Q (record s { nodes = m })
  pub pending :
      (s : MetadataState) (m : OrdMap ℕ PendingTransfer)
      → Q s
      → Q (record s { pending_transfers = m })
  pub epochs : (s : MetadataState) (m : OrdMap (ℕ × ℤ) ℕ) → Q s → Q (record s { epochs = m })
  pub producers : (s : MetadataState) (n : ℕ) → Q s → Q (record s { next_producer_id = n })
  pub lease :
      (s : MetadataState) (deadline : ℤ)
      → s.next_object_id + 1 < u64_mod
      → Q s
      → Q (leased s deadline)
  pub unprepare : (s : MetadataState) (i : ℕ) → Q s → Q (remove_prepared s i)
  pub put_set :
      (s : MetadataState) (row : StreamSetObjectRow)
      → get row.object.object_id s.stream_set_objects ≡ none
      → get row.object.object_id s.stream_object_ids ≡ none
      → Q s
      → Q (put_stream_set_object s row)
  pub remove_set : (s : MetadataState) (i : ℕ) → Q s → Q (remove_stream_set_object s i)
  pub put_object :
      (s : MetadataState) (o : StreamObject) (data_time_ms now_ms last_write_ms : ℤ)
      → get o.object_id s.stream_set_objects ≡ none
      → map_or false (another_key (some (object_key o))) (get o.object_id s.stream_object_ids)
        ≡ false
      → Q s
      → Q (insert_stream_object s o data_time_ms now_ms last_write_ms)
  pub remove_object : (s : MetadataState) (i : ℕ) → Q s → Q (remove_stream_object s i)
  pub mark : (s : MetadataState) (i : ℕ) (op : CompactOperations) → Q s → Q (mark_destroyed s i op)
  pub clean : (s : MetadataState) (i : ℕ) → Q s → Q (remove_destroyed s i)
  pub store : (s : MetadataState) (key : Text) (value : Bytes) → Q s → Q (put_kv s key value)
  pub unstore : (s : MetadataState) (key : Text) → Q s → Q (remove_kv s key).0

abbrev pub WithIds : (MetadataState → Type 0) → MetadataState → Type 0
WithIds Q s = HasIds s × Q s

pub Kept_of_RestKept : {Q : MetadataState → Type 0} → RestKept Q → Kept (WithIds Q)
Kept_of_RestKept {Q} R =
    let I = HasIds-Kept in
    record {
      ids = λ s h. h.0;
      put = λ s old new found r h. (
        I.put s old new found r h.0,
        subst Q (sym (put_stream-Only s new)) (R.rows s (put_stream s new) h.1),
      );
      create = λ s fits h.
          let s' = record s { next_stream_id = add_u64 s.next_stream_id 1 } in
          (
            I.create s fits h.0,
            subst Q (sym (put_stream-Only s' (fresh_stream s.next_stream_id)))
                (R.rows s' (created s) (R.next s _ h.1)),
          );
      delete = λ s i h. (
        I.delete s i h.0,
        subst Q (sym (remove_stream-Only s i)) (R.rows s (remove_stream s i) h.1),
      );
      nodes = λ s n new r h. (I.nodes s n new r h.0, R.nodes s _ h.1);
      pending = λ s m h. (I.pending s m h.0, R.pending s m h.1);
      epochs = λ s m h. (I.epochs s m h.0, R.epochs s m h.1);
      producers = λ s n le h. (I.producers s n le h.0, R.producers s n h.1);
      lease = λ s deadline fits h. (I.lease s deadline fits h.0, R.lease s deadline fits h.1);
      unprepare = λ s i h. (I.unprepare s i h.0, R.unprepare s i h.1);
      put_set = λ s row a b h. (I.put_set s row a b h.0, R.put_set s row a b h.1);
      remove_set = λ s i h. (I.remove_set s i h.0, R.remove_set s i h.1);
      put_object =
          λ s o d n l a b h. (I.put_object s o d n l a b h.0, R.put_object s o d n l a b h.1);
      remove_object = λ s i h. (I.remove_object s i h.0, R.remove_object s i h.1);
      mark = λ s i op h. (I.mark s i op h.0, R.mark s i op h.1);
      clean = λ s i h. (I.clean s i h.0, R.clean s i h.1);
      store = λ s key value h. (I.store s key value h.0, R.store s key value h.1);
      unstore = λ s key h. (I.unstore s key h.0, R.unstore s key h.1);
    }
