-- ===== src/Metadata/Kept/Streams.antt =====
-- The stream, placement and transfer commands keep an invariant.
pub mod Create
use native.Mathlib.Nat.{le_refl}
use picomq.Prelude.{
  ℕ, ◌≡◌, refl, Bool, true, false, not, ◌&&◌, ◌||◌, ◌⊎◌, inl, inr, Option, none, some, arith,
  int_ord, pair_ord, nat_ord, ◌==◌, ltb, leb, ◌≤◌, ℤ, Option-cases, Bool-cases, List, for_each,
  if◌then◌else◌,
}
use picomq.Engine.{opened, closed, is_opened}
use picomq.OrdMap.{get, remove, remove_all, keys_of}
use picomq.Metadata.Error.{Result, ok, err, ◌>>=◌, ◌>>◌}
use picomq.Metadata.Error.Ensures.{
  Ensures, Ensures-ok, Ensures-err, Ensures-fail_if, Ensures-bind, Ensures-if,
}
use picomq.Metadata.State.{
  StreamRow, StreamOffsetKey, PendingTransfer, MetadataState, put_stream, remove_stream,
}
use picomq.Metadata.Query.{stream_range}
use picomq.Metadata.Apply.Streams.{
  require_stream, open_again, open_newer, open_stream, trimmed, trim_stream, close_stream,
  delete_stream, delete_found, forget_stream, destroy_stream_object, older_epochs, dead_objects,
  epoch_keys,
}
use picomq.Metadata.Apply.Nodes.{node_live}
use picomq.Metadata.Apply.Placement.{
  place_stream, place_on, pick_node, transfer_stream, start_transfer, transfer_found, same_transfer,
  complete_transfer, finish_transfer,
}
use picomq.Metadata.Kept.{Kept, HasIds, RowSucceeds, for_each-keeps}
use picomq.Metadata.Kept.Nodes.{After}

pub require_stream-eq_ok :
    (s : MetadataState) (i : ℕ) {row : StreamRow}
    → require_stream s i ≡ ok row
    → get i s.streams ≡ some row
unfolding require_stream
require_stream-eq_ok s i e = ground arith

-- A row that was found stands under its own id.
pub found_own :
    (s : MetadataState) (i : ℕ) {row : StreamRow}
    → HasIds s
    → get i s.streams ≡ some row
    → get row.stream_id s.streams ≡ some row
found_own s i {row} ids e = cc (ids.own i row e)

-- A row at the same epoch that is not opened anew.
pub same_epoch :
    (old new : StreamRow)
    → new.stream_id ≡ old.stream_id
    → old.start_offset ≤ new.start_offset
    → old.epoch ≡ new.epoch
    → (is_opened new.state ≡ true → (is_opened old.state ≡ true) × (new.node_id ≡ old.node_id))
    → RowSucceeds old new
same_epoch old new i s e o = record { same_id = i; start_grows = s; epoch_grows = inr (e, o) }

ltb_of_tests : (a b : ℤ) → ltb b a ≡ false → (a == b) ≡ false → ltb a b ≡ true
ltb_of_tests a b h k = ground arith

le_of_ltb : (a b : ℕ) → ltb b a ≡ false → a ≤ b
le_of_ltb a b h = ground arith

left_false : (a b : Bool) → (a || b) ≡ false → a ≡ false
left_false a b h = ground arith

not_opened : {b : Bool} → b ≡ false → {A : Type 0} → b ≡ true → A
not_opened p q = cc

module _ {P : MetadataState → Type 0} (K : Kept P) where
  destroy_stream_objects-keeps :
      (s : MetadataState) (keys : List StreamOffsetKey)
      → P s
      → P (for_each destroy_stream_object s keys)
  unfolding destroy_stream_object
  destroy_stream_objects-keeps =
      for_each-keeps P destroy_stream_object λ t key d. K.mark _ _ _ (K.remove_object t _ d)

module _ {P : MetadataState → Type 0} (K : Kept P) (s : MetadataState) (h : P s) where
  open_again-keeps :
      (n : ℤ) (i : ℕ) (epoch : ℤ) (row : StreamRow) → Ensures (After P) (open_again s n i epoch row)
  unfolding open_again
  open_again-keeps n i epoch row =
      Ensures-if (is_opened row.state && row.node_id == n) _ _ (λ _. Ensures-ok h)
        (λ _. Ensures-err _)

  open_newer-keeps :
      (n : ℤ) (i : ℕ) (epoch : ℤ) (row : StreamRow)
      → get row.stream_id s.streams ≡ some row
      → ltb row.epoch epoch ≡ true
      → Ensures (After P) (open_newer s n i epoch row)
  unfolding open_newer
  open_newer-keeps n i epoch row found newer = Ensures-fail_if _ _ _ λ _. Ensures-ok (
      K.epochs _ _ (
        K.put s row _ found
          (record { same_id = refl; start_grows = le_refl _; epoch_grows = inl newer }) h))

  pub open_stream-keeps : (n : ℤ) (i : ℕ) (epoch : ℤ) → Ensures (After P) (open_stream s n i epoch)
  unfolding open_stream
  open_stream-keeps n i epoch = Ensures-bind _ _ λ row e. Ensures-fail_if _ _ _ λ older.
      Ensures-if _ _ _ (λ _. open_again-keeps n i epoch row)
        (λ newer.
          open_newer-keeps n i epoch row (found_own s i (K.ids s h) (require_stream-eq_ok s i e))
            (ltb_of_tests row.epoch epoch older newer))

  trimmed-keeps :
      (row : StreamRow) (i start : ℕ)
      → get row.stream_id s.streams ≡ some row
      → row.start_offset ≤ start
      → P (trimmed s row i start)
  unfolding trimmed
  trimmed-keeps row i start found above =
      let new = record row { start_offset = start } in
      let s₁ = put_stream s new in
      let s₂ = record s₁ { epochs = remove_all (older_epochs s₁ i start) s₁.epochs } in
      destroy_stream_objects-keeps K s₂ (dead_objects s₂ i start) (
        K.epochs s₁ s₂.epochs
          (K.put s row new found (same_epoch row new refl above refl (λ o. (o, refl))) h))

  pub trim_stream-keeps :
      (n : ℤ) (i : ℕ) (epoch : ℤ) (start : ℕ) → Ensures (After P) (trim_stream s n i epoch start)
  unfolding trim_stream
  trim_stream-keeps n i epoch start = Ensures-bind _ _ λ row e. Ensures-fail_if _ _ _ λ _.
      Ensures-fail_if _ _ _ λ _. Ensures-fail_if _ _ _ λ above. Ensures-fail_if _ _ _ λ _.
        Ensures-ok (
          trimmed-keeps row i start (found_own s i (K.ids s h) (require_stream-eq_ok s i e))
            (le_of_ltb _ _ above))

  pub close_stream-keeps :
      (n : ℤ) (i : ℕ) (epoch : ℤ) → Ensures (After P) (close_stream s n i epoch)
  unfolding close_stream
  close_stream-keeps n i epoch = Ensures-bind _ _ λ row e.
      let found = found_own s i (K.ids s h) (require_stream-eq_ok s i e) in
      Ensures-if (not (is_opened row.state) && row.epoch == epoch) _ _ (λ _. Ensures-ok h)
        (λ _. Ensures-fail_if _ _ _ λ _. Ensures-fail_if _ _ _ λ _. Ensures-fail_if _ _ _ λ _.
          Ensures-ok (
            K.put s row (record row { state = closed }) found
              (same_epoch row (record row { state = closed }) refl (le_refl _) refl (λ o. cc)) h))

  forget_stream-keeps : (i : ℕ) → P (forget_stream s i)
  unfolding forget_stream
  forget_stream-keeps i =
      let s₁ = remove_stream s i in
      let s₂ = record s₁ { pending_transfers = remove i s₁.pending_transfers } in
      let s₃ = record s₂ { epochs = remove_all (epoch_keys s₂ i) s₂.epochs } in
      destroy_stream_objects-keeps K s₃ (keys_of (stream_range i s₃.stream_objects))
        (K.epochs s₂ s₃.epochs (K.pending s₁ s₂.pending_transfers (K.delete s i h)))

  delete_found-keeps :
      (n : ℤ) (i : ℕ) (epoch : ℤ) (row : StreamRow)
      → Ensures (After P) (delete_found s n i epoch row)
  unfolding delete_found
  delete_found-keeps n i epoch row =
      Ensures-fail_if _ _ _ λ _.
        Ensures-fail_if _ _ _ λ _. Ensures-fail_if _ _ _ λ _. Ensures-ok (forget_stream-keeps i)

  pub delete_stream-keeps :
      (n : ℤ) (i : ℕ) (epoch : ℤ) → Ensures (After P) (delete_stream s n i epoch)
  unfolding delete_stream
  delete_stream-keeps n i epoch = elim (Option-cases (get i s.streams)) [
    | inl e ↦ rw (e, delete_stream) (Ensures-ok h)
    | inr (row, e) ↦ rw (e, delete_stream) (delete_found-keeps n i epoch row)
  ]

  place_on-keeps :
      (row : StreamRow)
      → get row.stream_id s.streams ≡ some row
      → is_opened row.state ≡ false
      → (winner : Option ℤ) → Ensures (After P) (place_on s row winner)
  place_on-keeps row found shut none = Ensures-err _
  place_on-keeps row found shut (some n) =
      Ensures-ok (K.put s row _ found (same_epoch row _ refl (le_refl _) refl (not_opened shut)) h)

  pub place_stream-keeps : (i : ℕ) (n : Option ℤ) → Ensures (After P) (place_stream s i n)
  unfolding place_stream
  place_stream-keeps i n = Ensures-bind _ _ λ row e.
      let found = found_own s i (K.ids s h) (require_stream-eq_ok s i e) in
      Ensures-if (is_opened row.state || node_live s row.node_id) _ _ (λ _. Ensures-ok h)
        (λ idle. place_on-keeps row found (left_false _ _ idle) (pick_node s n))

  start_transfer-keeps :
      (row : StreamRow) (i : ℕ) (from to : ℤ) → Ensures (After P) (start_transfer s row i from to)
  unfolding start_transfer
  start_transfer-keeps row i from to =
      Ensures-fail_if _ _ _
        λ _. Ensures-fail_if _ _ _ λ _. Ensures-fail_if _ _ _ λ _. Ensures-ok (K.pending s _ h)

  transfer_found-keeps :
      (row : StreamRow) (i : ℕ) (from to : ℤ) (pending : Option PendingTransfer)
      → Ensures (After P) (transfer_found s row i from to pending)
  unfolding transfer_found
  transfer_found-keeps row i from to none = start_transfer-keeps row i from to
  transfer_found-keeps row i from to (some pending) =
      Ensures-if (same_transfer from to pending) _ _ (λ _. Ensures-ok h) (λ _. Ensures-err _)

  pub transfer_stream-keeps :
      (i : ℕ) (from to : ℤ) → Ensures (After P) (transfer_stream s i from to)
  unfolding transfer_stream
  transfer_stream-keeps i from to =
      Ensures-bind _ _ λ row _. transfer_found-keeps row i from to (get i s.pending_transfers)

  finish_transfer-keeps :
      (i : ℕ) (epoch : ℤ) (pending : PendingTransfer)
      → Ensures (After P) (finish_transfer s i epoch pending)
  unfolding finish_transfer
  finish_transfer-keeps i epoch pending = Ensures-bind _ _ λ row e. Ensures-fail_if _ _ _ λ shut.
      Ensures-fail_if _ _ _ λ _. Ensures-ok (
        K.pending _ _ (
          K.put s row _ (found_own s i (K.ids s h) (require_stream-eq_ok s i e))
            (same_epoch row _ refl (le_refl _) refl (not_opened shut)) h))

  pub complete_transfer-keeps :
      (i : ℕ) (epoch : ℤ) → Ensures (After P) (complete_transfer s i epoch)
  unfolding complete_transfer
  complete_transfer-keeps i epoch = elim (Option-cases (get i s.pending_transfers)) [
    | inl e ↦ rw (e, complete_transfer) (Ensures-err _)
    | inr (pending, e) ↦ rw (e, complete_transfer) (finish_transfer-keeps i epoch pending)
  ]
