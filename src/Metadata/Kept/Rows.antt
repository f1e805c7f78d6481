-- ===== src/Metadata/Kept/Rows.antt =====
-- An invariant of streams and nodes: the writes to objects, leases and the key-value table, which
-- leave both alone, keep it of themselves.
use picomq.Prelude.{ℕ, ◌+◌, ◌<◌, ◌≡◌, some, int_ord, nat_ord, bytes_ord, ℤ, u64_mod}
use picomq.OrdMap.{get, insert}
use picomq.Metadata.State.{StreamRow, NodeRow, MetadataState, put_stream, remove_stream}
use picomq.Metadata.State.Objects.{put_prepared}
use picomq.Metadata.State.Kv.{put_kv}
use picomq.Metadata.Apply.Streams.{created}
use picomq.Metadata.Kept.{Kept, HasIds, RowSucceeds, NodeSucceeds}
use picomq.Metadata.Kept.Frame.{
  Same, Same-refl, remove_prepared-Same, put_stream_set_object-Same, remove_stream_set_object-Same,
  insert_stream_object-Same, remove_stream_object-Same, mark_destroyed-Same, remove_destroyed-Same,
  remove_kv-Same,
}

pub record RowsKept (P : MetadataState → Type 0) : Type 0 where
  pub ids : (s : MetadataState) → P s → HasIds s
  pub put :
      (s : MetadataState) (old new : StreamRow)
      → get new.stream_id s.streams ≡ some old
      → RowSucceeds old new
      → P s
      → P (put_stream s new)
  pub create : (s : MetadataState) → s.next_stream_id + 1 < u64_mod → P s → P (created s)
  pub delete : (s : MetadataState) (i : ℕ) → P s → P (remove_stream s i)
  pub nodes :
      (s : MetadataState) (n : ℤ) (new : NodeRow)
      → NodeSucceeds (get n s.nodes) new
      → P s
      → P (record s { nodes = insert n new s.nodes })
  pub same : (s t : MetadataState) → Same s t → P s → P t

pub Kept_of_RowsKept : {P : MetadataState → Type 0} → RowsKept P → Kept P
unfolding put_prepared put_kv
Kept_of_RowsKept R = record {
  ids = R.ids;
  put = R.put;
  create = R.create;
  delete = R.delete;
  nodes = R.nodes;
  pending = λ s m. R.same s _ (Same-refl s);
  epochs = λ s m. R.same s _ (Same-refl s);
  producers = λ s n h. R.same s _ (Same-refl s);
  lease = λ s deadline h. R.same s _ (Same-refl s);
  unprepare = λ s i. R.same s _ (remove_prepared-Same s i);
  put_set = λ s row h k. R.same s _ (put_stream_set_object-Same s row);
  remove_set = λ s i. R.same s _ (remove_stream_set_object-Same s i);
  put_object = λ s o d n l h k. R.same s _ (insert_stream_object-Same s o d n l);
  remove_object = λ s i. R.same s _ (remove_stream_object-Same s i);
  mark = λ s i op. R.same s _ (mark_destroyed-Same s i op);
  clean = λ s i. R.same s _ (remove_destroyed-Same s i);
  store = λ s key value. R.same s _ (Same-refl s);
  unstore = λ s key. R.same s _ (remove_kv-Same s key);
}
