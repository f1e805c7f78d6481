-- ===== src/Metadata/Kept/Commit.antt =====
-- The two commits keep an invariant.
pub mod Frame
use picomq.Prelude.{
  ℕ, ◌≡◌, refl, Bool, true, false, not, ◌&&◌, Option, none, some, List, [], ◌∷◌, arith, int_ord,
  nat_ord, ◌==◌, ltb, ℤ, map_or, if◌then◌else◌, is_empty, map, for_each, inl, inr, Bool-cases,
}
use picomq.Engine.{
  StreamObject, ObjectStreamRange, CommitStreamSetObjectRequest, CompactStreamObjectRequest,
}
use picomq.OrdMap.{get}
use picomq.Metadata.Error.{Result, ok, err, ◌>>=◌, ◌>>◌}
use picomq.Metadata.Error.Ensures.{
  Ensures, Ensures-ok, Ensures-err, Ensures-fail_if, Ensures-bind, Ensures-if, Ensures-check,
}
use picomq.Metadata.State.{StreamSetObjectRow, StreamOffsetKey, MetadataState}
use picomq.Metadata.State.Objects.{remove_prepared}
use picomq.Metadata.Apply.Objects.{check_object_id_free, another_key}
use picomq.Metadata.Apply.Commit.{
  destroy_stream_set_object, advance_ranges, committed_row, commit_set, object_key, commit_object,
  commit_objects, sources_write_time, remove_source, replacement, redundant_commit_check,
  commit_new, commit_stream_set_object, insert_replacement, check_replacement,
  compact_stream_object, data_time, latest_write,
}
use Frame.{remove_prepared-SameObjects, advance_end_offset-SameObjects, advance_ranges-SameObjects}
use picomq.Metadata.Kept.{Kept, for_each-keeps}
use picomq.Metadata.Kept.Nodes.{After}
use picomq.Metadata.Kept.Objects.{
  advance_end_offset-keeps, mark_destroy_objects-keeps, check_object_id_free-eq_ok,
}

none_of_another :
    (o : Option StreamOffsetKey) → map_or false (another_key none) o ≡ false → o ≡ none
none_of_another none h = refl
none_of_another (some key) h = cc

if-keeps :
    (b : Bool) (P : MetadataState → Type 0) {s t : MetadataState}
    → P s
    → P t
    → P (if b then s else t)
if-keeps true P h k = h
if-keeps false P h k = k

pub committed_row-object_id :
    (n : ℤ) (request : CommitStreamSetObjectRequest) (now_ms data_time_ms last_write_ms : ℤ)
    → (committed_row n request now_ms data_time_ms last_write_ms).object.object_id
      ≡ request.object_id
unfolding committed_row
committed_row-object_id n request now_ms data_time_ms last_write_ms = refl

module _ {P : MetadataState → Type 0} (K : Kept P) where
  advance_ranges-keeps :
      (s : MetadataState) (ranges : List ObjectStreamRange) (compact : Bool)
      → P s
      → Ensures P (advance_ranges s ranges compact)
  unfolding advance_ranges
  advance_ranges-keeps s [] compact h = Ensures-ok h
  advance_ranges-keeps s (r ∷ rest) compact h = Ensures-bind _ _ λ s' e.
      advance_ranges-keeps s' rest compact (
        (advance_end_offset-keeps K s r.stream_id r.start_offset r.end_offset compact h).holds s' e)

  destroy_stream_set_objects-keeps :
      (s : MetadataState) (ids : List ℕ) → P s → P (for_each destroy_stream_set_object s ids)
  unfolding destroy_stream_set_object
  destroy_stream_set_objects-keeps =
      for_each-keeps P destroy_stream_set_object λ t i d. K.mark _ _ _ (K.remove_set t i d)

  commit_set-keeps :
      (s : MetadataState) (request : CommitStreamSetObjectRequest) (compact : Bool)
      (row : StreamSetObjectRow)
      → row.object.object_id ≡ request.object_id
      → P s
      → Ensures P (commit_set s request compact row)
  unfolding commit_set
  commit_set-keeps s request compact row same h = Ensures-check _ _ λ checked.
      Ensures-bind _ _ λ s' e.
        let (no_set, no_object) = check_object_id_free-eq_ok s request.object_id none checked in
        let s₀ = remove_prepared s request.object_id in
        let f₀ = remove_prepared-SameObjects s request.object_id in
        let f = (advance_ranges-SameObjects s₀ request.stream_ranges compact).holds s' e in
        Ensures-ok (
          K.put_set s' row (rw (same, f.sets, f₀.sets) no_set)
            (rw (same, f.ids, f₀.ids) (none_of_another _ no_object))
            ((advance_ranges-keeps s₀ request.stream_ranges compact
                (K.unprepare s request.object_id h)).holds
              s' e))

  commit_object-keeps :
      (s : MetadataState) (o : StreamObject) (compact : Bool)
      (data_time_ms now_ms last_write_ms : ℤ)
      → P s
      → Ensures P (commit_object s o compact data_time_ms now_ms last_write_ms)
  unfolding commit_object
  commit_object-keeps s o compact data_time_ms now_ms last_write_ms h = Ensures-check _ _ λ checked.
      Ensures-bind _ _ λ s' e.
        let (no_set, own) =
          check_object_id_free-eq_ok s o.object_id (some (object_key o)) checked in
        let s₀ = remove_prepared s o.object_id in
        let f₀ = remove_prepared-SameObjects s o.object_id in
        let f =
          (advance_end_offset-SameObjects s₀ o.stream_id o.start_offset o.end_offset compact).holds
            s' e in
        Ensures-ok (
          K.put_object s' o data_time_ms now_ms last_write_ms (rw (f.sets, f₀.sets) no_set)
            (rw (f.ids, f₀.ids) own)
            ((advance_end_offset-keeps K s₀ o.stream_id o.start_offset o.end_offset compact
                (K.unprepare s o.object_id h)).holds
              s' e))

  commit_objects-keeps :
      (s : MetadataState) (os : List StreamObject) (compact : Bool)
      (data_time_ms now_ms last_write_ms : ℤ)
      → P s
      → Ensures P (commit_objects s os compact data_time_ms now_ms last_write_ms)
  unfolding commit_objects
  commit_objects-keeps s [] compact data_time_ms now_ms last_write_ms h = Ensures-ok h
  commit_objects-keeps s (o ∷ rest) compact data_time_ms now_ms last_write_ms h =
      Ensures-bind _ _ λ s' e.
        commit_objects-keeps s' rest compact data_time_ms now_ms last_write_ms
          ((commit_object-keeps s o compact data_time_ms now_ms last_write_ms h).holds s' e)

  remove_sources-keeps :
      (stream_id : ℕ) (s : MetadataState) (ids : List ℕ)
      → P s
      → P (for_each (remove_source stream_id) s ids)
  unfolding remove_source
  remove_sources-keeps stream_id = for_each-keeps P (remove_source stream_id) λ t i d.
      if-keeps
        (map_or false (λ (key : StreamOffsetKey). key.0 == stream_id) (get i t.stream_object_ids)) P
        (K.remove_object t i d) d

module _ {P : MetadataState → Type 0} (K : Kept P) (noop_object_id : ℕ) where
  set_or_noop-keeps :
      (s : MetadataState) (request : CommitStreamSetObjectRequest) (compact noop : Bool)
      (row : StreamSetObjectRow)
      → row.object.object_id ≡ request.object_id
      → P s
      → Ensures P (if noop then ok s else commit_set s request compact row)
  set_or_noop-keeps s request compact true row same h = Ensures-ok h
  set_or_noop-keeps s request compact false row same h =
      commit_set-keeps K s request compact row same h

  commit_new-keeps :
      (s : MetadataState) (request : CommitStreamSetObjectRequest) (compact : Bool)
      (row : StreamSetObjectRow) (data_time_ms now_ms last_write_ms : ℤ)
      → row.object.object_id ≡ request.object_id
      → P s
      → Ensures P
          (commit_new noop_object_id s request compact row data_time_ms now_ms last_write_ms)
  unfolding commit_new
  commit_new-keeps s request compact row data_time_ms now_ms last_write_ms same h =
      Ensures-bind _ _ λ s' e.
        commit_objects-keeps K s' request.stream_objects compact data_time_ms now_ms last_write_ms (
          (set_or_noop-keeps s request compact (request.object_id == noop_object_id) row same
              h).holds
            s' e)

  pub commit_stream_set_object-keeps :
      (s : MetadataState) (n : ℤ) (request : CommitStreamSetObjectRequest) (now_ms : ℤ)
      → P s
      → Ensures (After P) (commit_stream_set_object noop_object_id s n request now_ms)
  unfolding commit_stream_set_object
  commit_stream_set_object-keeps s n request now_ms h = Ensures-check _ _ λ _.
      Ensures-bind _ _ λ sources _. Ensures-bind _ _ λ s' e. Ensures-ok (
        (commit_new-keeps (for_each destroy_stream_set_object s request.compacted_object_ids)
            request (not (is_empty request.compacted_object_ids))
            (committed_row n request now_ms (data_time now_ms sources)
              (latest_write now_ms sources))
            (data_time now_ms sources) now_ms (latest_write now_ms sources)
            (committed_row-object_id n request now_ms _ _)
            (destroy_stream_set_objects-keeps K s request.compacted_object_ids h)).holds
          s' e)

  insert_replacement-keeps :
      (s : MetadataState) (request : CompactStreamObjectRequest) (now_ms : ℤ)
      → check_replacement noop_object_id s request ≡ ok tt
      → P s
      → P (insert_replacement noop_object_id s request now_ms)
  unfolding insert_replacement check_replacement
  insert_replacement-keeps s request now_ms checked h =
      elim (Bool-cases (request.object_id == noop_object_id)) [
        | inl e ↦ rw e (K.unprepare s request.object_id h)
        | inr e ↦
            let (no_set, own) =
              check_object_id_free-eq_ok s request.object_id
                (some (object_key (replacement request))) (rw e at checked) in
            let f = remove_prepared-SameObjects s request.object_id in
            rw e (
              K.put_object (remove_prepared s request.object_id) (replacement request) now_ms now_ms
                _ (rw f.sets no_set) (rw f.ids own) (K.unprepare s request.object_id h))
      ]

  pub compact_stream_object-keeps :
      (s : MetadataState) (request : CompactStreamObjectRequest) (now_ms : ℤ)
      → P s
      → Ensures (After P) (compact_stream_object noop_object_id s request now_ms)
  unfolding compact_stream_object
  compact_stream_object-keeps s request now_ms h = Ensures-fail_if _ _ _ λ _.
      Ensures-bind _ _ λ row _. Ensures-fail_if _ _ _ λ _. Ensures-fail_if _ _ _ λ _.
        Ensures-fail_if _ _ _ λ _. Ensures-check _ _ λ checked. Ensures-bind _ _ λ s' e.
          Ensures-ok (
            (mark_destroy_objects-keeps K _ request.source_object_ids request.operations (
                remove_sources-keeps K request.stream_id
                  (insert_replacement noop_object_id s request now_ms) request.source_object_ids
                  (insert_replacement-keeps s request now_ms checked h))).holds
              s' e)
