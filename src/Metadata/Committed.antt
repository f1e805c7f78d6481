-- ===== src/Metadata/Committed.antt =====
-- picomq/pico-metadata/src/state.rs: the tables of committed objects agree, and no object id is
-- used twice.
pub mod Steps
pub mod Always
use mathlib.Core.Path.{subst}
use picomq.Prelude.{
  ℕ, ◌≡◌, ◌⊎◌, refl, sym, ◌∙◌, ap, Bool, true, false, not, ◌&&◌, Option, none, some, arith, nat_ord,
  pair_ord, ◌==◌, eq_of_test, ℤ, map_or, map_option, is_some, Option-cases, Bool-cases, inl, inr,
  if◌then◌else◌,
}
use picomq.Engine.{StreamObject, StreamOffsetRange}
use picomq.OrdMap.{OrdMap, get, remove, insert, get-insert, get-remove}
use picomq.Metadata.State.{StreamSetObjectRow, StreamObjectRow, StreamOffsetKey, MetadataState}
use picomq.Metadata.State.Objects.{
  put_prepared, remove_stream_set_object, put_stream_set_object, remove_stream_object,
}
use picomq.Metadata.State.Kv.{put_kv}
use picomq.Metadata.Query.{first_range}
use picomq.Metadata.Apply.Objects.{insert_stream_object, another_key}
use picomq.Metadata.Apply.Commit.{object_key}
use picomq.Metadata.Kept.{Kept}
use picomq.Metadata.Kept.Only.{
  remove_prepared-Only, mark_destroyed-Only, remove_destroyed-Only, remove_kv-Only,
}
use picomq.Metadata.Kept.Rest.{WithIds, Kept_of_RestKept}
use Steps.{
  get-remove_set, remove_set-others, put_set-SameCommitted, get-ids-remove_object, is_key,
  get-objects-remove_object, remove_object-sets, Inserted, object_row,
  insert_stream_object-Inserted,
}

-- The key that a row stands under.
abbrev pub key_of : StreamObjectRow → Option StreamOffsetKey
key_of row =
    map_option (λ (r : StreamOffsetRange). (r.stream_id, (r.start_offset, row.object.object_id)))
      (first_range row)

pub record ObjectsAgree (sets : OrdMap ℕ StreamSetObjectRow)
    (objects : OrdMap StreamOffsetKey StreamObjectRow) (ids : OrdMap ℕ StreamOffsetKey)
    : Type 0 where
  pub set_own :
      (i : ℕ) (row : StreamSetObjectRow) → get i sets ≡ some row → row.object.object_id ≡ i
  pub apart : (i : ℕ) (key : StreamOffsetKey) → get i ids ≡ some key → get i sets ≡ none
  pub key_own : (i : ℕ) (key : StreamOffsetKey) → get i ids ≡ some key → key.1.1 ≡ i
  pub row_of :
      (i : ℕ) (key : StreamOffsetKey) → get i ids ≡ some key → is_some (get key objects) ≡ true
  pub id_of :
      (key : StreamOffsetKey) (row : StreamObjectRow)
      → get key objects ≡ some row
      → get key.1.1 ids ≡ some key
  pub row_own :
      (key : StreamOffsetKey) (row : StreamObjectRow)
      → get key objects ≡ some row
      → key_of row ≡ some key

abbrev pub IsCommitted : MetadataState → Type 0
IsCommitted s = ObjectsAgree s.stream_set_objects s.stream_objects s.stream_object_ids
