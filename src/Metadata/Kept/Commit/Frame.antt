-- ===== src/Metadata/Kept/Commit/Frame.antt =====
-- Moving end offsets and dropping leases leave the tables of committed objects alone.
use picomq.Prelude.{ℕ, ◌≡◌, refl, ◌∙◌, Bool, true, false, List, [], ◌∷◌, arith}
use picomq.Engine.{ObjectStreamRange}
use picomq.Metadata.Error.Ensures.{Ensures, Ensures-ok, Ensures-bind, Ensures-fail_if}
use picomq.Metadata.State.{StreamRow, MetadataState, put_stream}
use picomq.Metadata.State.Objects.{remove_prepared}
use picomq.Metadata.Apply.Objects.{advance_end_offset}
use picomq.Metadata.Apply.Commit.{advance_ranges}

pub record SameObjects (s t : MetadataState) : Type 0 where
  pub sets : t.stream_set_objects ≡ s.stream_set_objects
  pub ids : t.stream_object_ids ≡ s.stream_object_ids

SameObjects-trans : {s t u : MetadataState} → SameObjects s t → SameObjects t u → SameObjects s u
SameObjects-trans h k = record { sets = k.sets ∙ h.sets; ids = k.ids ∙ h.ids }

pub remove_prepared-SameObjects : (s : MetadataState) (i : ℕ) → SameObjects s (remove_prepared s i)
unfolding remove_prepared
remove_prepared-SameObjects s i = record { sets = ground arith; ids = ground arith }

put_stream-SameObjects : (s : MetadataState) (row : StreamRow) → SameObjects s (put_stream s row)
unfolding put_stream
put_stream-SameObjects s row = record { sets = ground arith; ids = ground arith }

pub advance_end_offset-SameObjects :
    (s : MetadataState) (i start end : ℕ) (compact : Bool)
    → Ensures (SameObjects s) (advance_end_offset s i start end compact)
unfolding advance_end_offset
advance_end_offset-SameObjects s i start end true = Ensures-bind _ _ λ row e.
    Ensures-fail_if _ _ _
      λ _. Ensures-fail_if _ _ _ λ _. Ensures-ok (record { sets = refl; ids = refl })
advance_end_offset-SameObjects s i start end false =
    Ensures-bind _ _ λ row e. Ensures-fail_if _ _ _ λ _. Ensures-ok (put_stream-SameObjects s _)

pub advance_ranges-SameObjects :
    (s : MetadataState) (ranges : List ObjectStreamRange) (compact : Bool)
    → Ensures (SameObjects s) (advance_ranges s ranges compact)
unfolding advance_ranges
advance_ranges-SameObjects s [] compact = Ensures-ok (record { sets = refl; ids = refl })
advance_ranges-SameObjects s (r ∷ rest) compact = Ensures-bind _ _ λ s' e.
    let step =
      (advance_end_offset-SameObjects s r.stream_id r.start_offset r.end_offset compact).holds s'
        e in
    let tail = advance_ranges-SameObjects s' rest compact in
    record { holds = λ t p. SameObjects-trans step (tail.holds t p) }
