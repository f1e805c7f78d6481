-- ===== src/Metadata/Kept/Objects.antt =====
-- The object commands other than commits, and the steps that commits share, keep an invariant.
pub mod Lease
use native.Mathlib.Nat.{le_refl}
use picomq.Prelude.{
  ℕ, ◌+◌, ◌<◌, ◌≤◌, ◌≡◌, refl, Bool, true, false, not, Option, none, some, List, arith, int_ord,
  nat_ord, pair_ord, ◌==◌, ltb, ℤ, u64_mod, add_u64, map_or, if◌then◌else◌, is_empty, length, zip,
  for_each, is_some,
}
use picomq.Engine.{CompactOperations, delete, is_opened}
use picomq.OrdMap.{get, contains_key}
use picomq.Metadata.Error.{Result, ok, err, ◌>>=◌, ◌>>◌}
use picomq.Metadata.Error.Ensures.{
  Ensures, Ensures-ok, Ensures-err, Ensures-fail_if, Ensures-bind, Ensures-if,
}
use picomq.Metadata.State.{StreamRow, StreamOffsetKey, MetadataState}
use picomq.Metadata.State.Objects.{remove_prepared, remove_destroyed}
use picomq.Metadata.Apply.Streams.{mark_destroyed}
use picomq.Metadata.Apply.Objects.{
  allocate_producer_ids, advance_end_offset, mark_destroy_objects, check_object_id_free,
  another_key, expired_keys, expire_prepared_objects, clean_destroyed_objects,
}
use picomq.Metadata.Kept.{Kept, for_each-keeps}
use picomq.Metadata.Kept.Nodes.{After}
use picomq.Metadata.Kept.Streams.{require_stream-eq_ok, found_own, same_epoch}

le-add_u64 : (a n : ℕ) → a + n < u64_mod → a ≤ add_u64 a n
le-add_u64 a n h = omega arith

module _ {P : MetadataState → Type 0} (K : Kept P) where
  pub allocate_producer_ids-keeps :
      (s : MetadataState) (count : ℕ)
      → s.next_producer_id + count < u64_mod
      → P s
      → Ensures (After P) (allocate_producer_ids s count)
  unfolding allocate_producer_ids
  allocate_producer_ids-keeps s count fits h = Ensures-fail_if _ _ _ λ _.
      Ensures-fail_if _ _ _
        λ _. Ensures-ok (K.producers s _ (le-add_u64 s.next_producer_id count fits) h)

  pub expire_prepared_objects-keeps :
      (s : MetadataState) (now_ms : ℤ) → P s → Ensures (After P) (expire_prepared_objects s now_ms)
  unfolding expire_prepared_objects
  expire_prepared_objects-keeps s now_ms h = Ensures-ok (
      for_each-keeps P (λ t (key : ℤ × ℕ). remove_prepared t key.1)
        (λ t key d. K.unprepare t key.1 d) s (expired_keys s now_ms) h)

  pub clean_destroyed_objects-keeps :
      (s : MetadataState) (ids : List ℕ) → P s → Ensures (After P) (clean_destroyed_objects s ids)
  unfolding clean_destroyed_objects
  clean_destroyed_objects-keeps s ids h =
      Ensures-ok (for_each-keeps P remove_destroyed (λ t i d. K.clean t i d) s ids h)

  pub advance_end_offset-keeps :
      (s : MetadataState) (i start end : ℕ) (compact : Bool)
      → P s
      → Ensures P (advance_end_offset s i start end compact)
  unfolding advance_end_offset
  advance_end_offset-keeps s i start end true h =
      Ensures-bind _ _ λ row e. Ensures-fail_if _ _ _ λ _. Ensures-fail_if _ _ _ λ _. Ensures-ok h
  advance_end_offset-keeps s i start end false h = Ensures-bind _ _ λ (row : StreamRow) e.
      Ensures-fail_if _ _ _ λ _.
        let new = record row { end_offset = end } in
        Ensures-ok (
          K.put s row new (found_own s i (K.ids s h) (require_stream-eq_ok s i e))
            (same_epoch row new refl (le_refl _) refl (λ o. (o, refl))) h)

  pub mark_destroy_objects-keeps :
      (s : MetadataState) (ids : List ℕ) (ops : List CompactOperations)
      → P s
      → Ensures P (mark_destroy_objects s ids ops)
  unfolding mark_destroy_objects
  mark_destroy_objects-keeps s ids ops h =
      Ensures-if (is_empty ids) _ _ (λ _. Ensures-ok h)
        (λ _.
          Ensures-if (is_empty ops) _ _
            (λ _. Ensures-ok (
              for_each-keeps P (λ t object_id. mark_destroyed t object_id delete)
                (λ t i d. K.mark t i delete d) s ids h))
            (λ _.
              Ensures-if (not (length ops == length ids)) _ _ (λ _. Ensures-err _)
                (λ _. Ensures-ok (
                  for_each-keeps P (λ t (e : ℕ × CompactOperations). mark_destroyed t e.0 e.1)
                    (λ t e d. K.mark t e.0 e.1 d) s (zip ids ops) h))))

-- What `check_object_id_free` has checked where it passes.
pub check_object_id_free-eq_ok :
    (s : MetadataState) (i : ℕ) (key : Option StreamOffsetKey)
    → check_object_id_free s i key ≡ ok tt
    → (get i s.stream_set_objects ≡ none)
      × (map_or false (another_key key) (get i s.stream_object_ids) ≡ false)
unfolding check_object_id_free ◌>>◌
check_object_id_free-eq_ok s i key e = ground arith
