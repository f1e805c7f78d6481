-- ===== src/Metadata/Retries.antt =====
-- picomq/pico-metadata/src/apply.rs: a command that is sent again after it has succeeded.
use picomq.Prelude.{
  ℕ, ◌≡◌, refl, ap, ◌∙◌, Bool, true, false, some, List, [], ◌∷◌, arith, int_ord, nat_ord, ◌==◌, ltb,
  ℤ,
}
use picomq.Engine.{opened, is_opened, StreamObject, CommitStreamSetObjectRequest}
use picomq.OrdMap.{get, contains_key, get-insert}
use picomq.Metadata.Error.{ok, err, ◌>>◌, redundant}
use picomq.Metadata.Error.Ensures.{Ensures, Ensures-ok, Ensures-bind, Ensures-check}
use picomq.Metadata.Command.{MetadataResult, stream}
use picomq.Metadata.State.{StreamRow, StreamSetObjectRow, MetadataState, to_stream_metadata}
use picomq.Metadata.State.Objects.{remove_prepared, put_stream_set_object, remove_stream_set_object}
use picomq.Metadata.Apply.Streams.{open_stream, open_again}
use picomq.Metadata.Apply.Commit.{
  commit_set, commit_object, commit_objects, commit_new, commit_stream_set_object,
  redundant_commit_check,
}
use picomq.Metadata.Kept.Commit.Frame.{remove_prepared-SameObjects, advance_end_offset-SameObjects}
use picomq.Metadata.Kept.Commit.{committed_row-object_id}
use picomq.Metadata.Transfer.{open-owns, require-found}
use picomq.Metadata.Committed.Steps.{insert_stream_object-Inserted, put_set-SameCommitted}

-- The commits of stream objects leave the stream-set objects alone.
abbrev SameSets : MetadataState → MetadataState → Type 0
SameSets s t = t.stream_set_objects ≡ s.stream_set_objects

commit_object-SameSets :
    (s : MetadataState) (o : StreamObject) (compact : Bool) (d n l : ℤ)
    → Ensures (SameSets s) (commit_object s o compact d n l)
unfolding commit_object
commit_object-SameSets s o compact d n l = Ensures-check _ _ λ _. Ensures-bind _ _ λ s' e.
    let s₀ = remove_prepared s o.object_id in
    let f =
      (advance_end_offset-SameObjects s₀ o.stream_id o.start_offset o.end_offset compact).holds s'
        e in
    Ensures-ok (
      (insert_stream_object-Inserted s' o d n l).sets
      ∙ f.sets
      ∙ (remove_prepared-SameObjects s o.object_id).sets)

commit_objects-SameSets :
    (s : MetadataState) (os : List StreamObject) (compact : Bool) (d n l : ℤ)
    → Ensures (SameSets s) (commit_objects s os compact d n l)
unfolding commit_objects
commit_objects-SameSets s [] compact d n l = Ensures-ok refl
commit_objects-SameSets s (o ∷ os) compact d n l = Ensures-bind _ _ λ s' e. record {
  holds = λ t r.
      (commit_objects-SameSets s' os compact d n l).holds t r
      ∙ (commit_object-SameSets s o compact d n l).holds s' e;
}

abbrev Has : ℕ → MetadataState → Type 0
Has i s = contains_key i s.stream_set_objects ≡ true

put_set-Has :
    (s : MetadataState) (row : StreamSetObjectRow)
    → Has row.object.object_id (put_stream_set_object s row)
put_set-Has s row =
    let i = row.object.object_id in
    let t = remove_stream_set_object s i in
    rw ((put_set-SameCommitted s row).sets)
      (ground (arith, get-insert i i row t.stream_set_objects, nat_ord.cmp_refl i))

commit_set-Has :
    (s : MetadataState) (request : CommitStreamSetObjectRequest) (compact : Bool)
    (row : StreamSetObjectRow)
    → row.object.object_id ≡ request.object_id
    → Ensures (Has request.object_id) (commit_set s request compact row)
unfolding commit_set
commit_set-Has s request compact row same =
    Ensures-check _ _ λ _. Ensures-bind _ _ λ s' e. Ensures-ok (rw⁻¹ same (put_set-Has s' row))

module _ (noop : ℕ) where
  commit_new-Has :
      (s : MetadataState) (request : CommitStreamSetObjectRequest) (compact : Bool)
      (row : StreamSetObjectRow) (d n l : ℤ)
      → row.object.object_id ≡ request.object_id
      → (request.object_id == noop) ≡ false
      → Ensures (Has request.object_id) (commit_new noop s request compact row d n l)
  unfolding commit_new
  commit_new-Has s request compact row d n l same real = rw real (
      Ensures-bind (commit_set s request compact row) _ λ s' e. record {
        holds = λ t r.
            ap (λ m. contains_key request.object_id m)
              ((commit_objects-SameSets s' request.stream_objects compact d n l).holds t r)
            ∙ (commit_set-Has s request compact row same).holds s' e;
      })

  commit-Has :
      (s : MetadataState) (n : ℤ) (request : CommitStreamSetObjectRequest) (now_ms : ℤ)
      → (request.object_id == noop) ≡ false
      → Ensures
          (λ (o : MetadataState × MetadataResult). Has request.object_id o.0)
          (commit_stream_set_object noop s n request now_ms)
  unfolding commit_stream_set_object
  commit-Has s n request now_ms real = Ensures-check _ _ λ _. Ensures-bind _ _ λ sources _.
      Ensures-bind _ _ λ s' e.
        Ensures-ok
          ((commit_new-Has _ request _ _ _ _ _ (committed_row-object_id _ _ _ _ _) real).holds s' e)

  -- A commit of a stream-set object that has succeeded is answered as redundant when it is sent again
  -- in the state that it left, with no other command in between, whatever node sends it and whatever
  -- time it names; the object is not the no-op object.
  pub commit-retries :
      (s t : MetadataState) (n n' : ℤ) (request : CommitStreamSetObjectRequest)
      (now_ms later_ms : ℤ) (r : MetadataResult)
      → (request.object_id == noop) ≡ false
      → commit_stream_set_object noop s n request now_ms ≡ ok (t, r)
      → commit_stream_set_object noop t n' request later_ms ≡ err redundant
  unfolding commit_stream_set_object redundant_commit_check ◌>>◌
  commit-retries s t n n' request now_ms later_ms r real done =
      rw (real, (commit-Has s n request now_ms real).holds (t, r) done) refl

ltb_irrefl : (e : ℤ) → ltb e e ≡ false
ltb_irrefl e = ground (arith, int_ord.cmp_refl e)

same_epoch : (e : ℤ) → (e == e) ≡ true
same_epoch e = ground (arith, int_ord.cmp_refl e)

-- A closed stream, stored under its own id, that is opened at an epoch above its own is found open
-- when the same open is sent again: the result is the same, and the state stays.
pub open-retries :
    (s : MetadataState) (n : ℤ) (i : ℕ) (epoch : ℤ) (row : StreamRow)
    → get i s.streams ≡ some row
    → row.stream_id ≡ i
    → is_opened row.state ≡ false
    → ltb row.epoch epoch ≡ true
    → (t : MetadataState) × (r : MetadataResult) × (open_stream s n i epoch ≡ ok (t, r))
      × (open_stream t n i epoch ≡ ok (t, r))
unfolding open_stream open_again ◌>>◌
open-retries s n i epoch row found own shut newer =
    let new = record row { epoch = epoch; state = opened; node_id = n } in
    let (t, opens, now, _) = open-owns s n i epoch row found own shut newer in
    (
      t,
      stream (to_stream_metadata new),
      opens,
      rw (require-found t i new now, ltb_irrefl epoch, same_epoch epoch, same_epoch n) refl,
    )
