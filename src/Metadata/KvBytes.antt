-- ===== src/Metadata/KvBytes.antt =====
-- picomq/pico-metadata/src/state.rs: the byte count of the key-value table is that of its entries.
use mathlib.Core.Path.{subst}
use picomq.Prelude.{◌%◌, ◌≡◌, sym, arith, bytes_ord, nat_ord, u64_mod, Option-cases, inl, inr}
use picomq.OrdMap.{get, sum_by, sum_by-insert, sum_by-remove}
use picomq.Metadata.Command.{Text, Bytes}
use picomq.Metadata.State.{MetadataState}
use picomq.Metadata.State.Objects.{put_prepared}
use picomq.Metadata.State.Kv.{entry_bytes, put_kv, remove_kv}
use picomq.Metadata.Kept.{Kept}
use picomq.Metadata.Kept.Only.{
  remove_prepared-Only, put_stream_set_object-Only, remove_stream_set_object-Only,
  insert_stream_object-Only, remove_stream_object-Only, mark_destroyed-Only, remove_destroyed-Only,
}
use picomq.Metadata.Kept.Rest.{WithIds, Kept_of_RestKept}

-- The counter holds the bytes of all keys and values, as far as 64 bits go.
abbrev pub IsCounted : MetadataState → Type 0
IsCounted s = s.kv_bytes ≡ sum_by entry_bytes s.kv % u64_mod

put_kv-IsCounted :
    (s : MetadataState) (key : Text) (v : Bytes) → IsCounted s → IsCounted (put_kv s key v)
unfolding put_kv
put_kv-IsCounted s key v h = elim (Option-cases (get key s.kv)) [
  | inl e ↦ rw e (ground (arith, e, h, sum_by-insert entry_bytes key v s.kv))
  | inr (old, e) ↦ rw e (ground (arith, e, h, sum_by-insert entry_bytes key v s.kv))
]

remove_kv-IsCounted : (s : MetadataState) (key : Text) → IsCounted s → IsCounted (remove_kv s key).0
unfolding remove_kv
remove_kv-IsCounted s key h = elim (Option-cases (get key s.kv)) [
  | inl e ↦ rw (e, remove_kv) h
  | inr (old, e) ↦ rw (e, remove_kv) (ground (arith, e, h, sum_by-remove entry_bytes key s.kv))
]

pub IsCounted-Kept : Kept (WithIds IsCounted)
unfolding put_prepared
IsCounted-Kept =
    let Q = IsCounted in
    Kept_of_RestKept (record {
      rows = λ s t h. h;
      next = λ s n h. h;
      nodes = λ s m h. h;
      pending = λ s m h. h;
      epochs = λ s m h. h;
      producers = λ s n h. h;
      lease = λ s deadline fits h. h;
      unprepare = λ s i h. subst Q (sym (remove_prepared-Only s i)) h;
      put_set = λ s row a b h. subst Q (sym (put_stream_set_object-Only s row)) h;
      remove_set = λ s i h. subst Q (sym (remove_stream_set_object-Only s i)) h;
      put_object = λ s o d n l a b h. subst Q (sym (insert_stream_object-Only s o d n l)) h;
      remove_object = λ s i h. subst Q (sym (remove_stream_object-Only s i)) h;
      mark = λ s i op h. subst Q (sym (mark_destroyed-Only s i op)) h;
      clean = λ s i h. subst Q (sym (remove_destroyed-Only s i)) h;
      store = put_kv-IsCounted;
      unstore = remove_kv-IsCounted;
    })
