-- ===== src/Metadata/Transfer.antt =====
-- picomq/pico-metadata/src/apply.rs: a stream that is opened, and a stream that moves.
use picomq.Prelude.{
  ℕ, ◌≡◌, refl, sym, ap, ◌∙◌, true, false, none, some, arith, int_ord, nat_ord, pair_ord, ◌==◌, ltb,
  ℤ, if◌then◌else◌, map_or,
}
use picomq.Engine.{opened, closed, is_opened}
use picomq.OrdMap.{get, insert, remove, get-insert, get-remove}
use picomq.Metadata.Error.{ok, ◌>>◌, ◌>>=◌}
use picomq.Metadata.Command.{unit, stream}
use picomq.Metadata.State.{
  StreamRow, PendingTransfer, MetadataState, put_stream, to_stream_metadata,
}
use picomq.Metadata.State.Tables.{put_row, get-put_stream}
use picomq.Metadata.Kept.Only.{put_stream-Only}
use picomq.Metadata.Apply.Nodes.{check_owner}
use picomq.Metadata.Apply.Streams.{require_stream, open_stream, open_newer, close_stream}
use picomq.Metadata.Apply.Placement.{
  takes_streams, transfer_stream, transfer_found, start_transfer, complete_transfer,
  finish_transfer,
}

pub require-found :
    (s : MetadataState) (i : ℕ) (row : StreamRow)
    → get i s.streams ≡ some row
    → require_stream s i ≡ ok row
unfolding require_stream
require-found s i row e = ground (arith, e)

not_below : (a b : ℤ) → ltb a b ≡ true → ltb b a ≡ false
not_below a b h = ground (arith, int_ord.gt_of_lt a b)

not_same : (a b : ℤ) → ltb a b ≡ true → (a == b) ≡ false
not_same a b h = ground arith

key_refl : (k : ℕ × ℤ) → (k == k) ≡ true
key_refl k = ground (arith, nat_ord.cmp_refl k.0, int_ord.cmp_refl k.1)

-- A row put over one with the same byte count is stored as given.
get-put_own :
    (s : MetadataState) {i : ℕ} (new old : StreamRow)
    → get new.stream_id s.streams ≡ some old
    → new.stream_id ≡ i
    → new.stored_bytes ≡ old.stored_bytes
    → get i (put_stream s new).streams ≡ some new
get-put_own s {i} new old found own bytes =
    let as_given : put_row s new ≡ new =
      ap (λ b. record new { stored_bytes = b })
        (ap (map_or 0 (λ (r : StreamRow). r.stored_bytes)) found ∙ sym bytes) in
    let here : (i == new.stream_id) ≡ true = rw own (eq-refl i) in
    get-put_stream s new i
    ∙ ap (λ b. if b then some (put_row s new) else get i s.streams) here
    ∙ ap some as_given
  where
    eq-refl : (i : ℕ) → (i == i) ≡ true
    eq-refl i = ground (arith, nat_ord.cmp_refl i)

-- A closed stream, stored under its own id, opens at any epoch above its own: the result and the
-- row then name the node and the epoch, its offsets stay, and the epoch starts at its end offset.
pub open-owns :
    (s : MetadataState) (n : ℤ) (i : ℕ) (epoch : ℤ) (row : StreamRow)
    → get i s.streams ≡ some row
    → row.stream_id ≡ i
    → is_opened row.state ≡ false
    → ltb row.epoch epoch ≡ true
    → let new = record row { epoch = epoch; state = opened; node_id = n } in
      (t : MetadataState) × (open_stream s n i epoch ≡ ok (t, stream (to_stream_metadata new)))
      × (get i t.streams ≡ some new)
      × (get (i, epoch) t.epochs ≡ some row.end_offset)
unfolding open_stream open_newer ◌>>◌
open-owns s n i epoch row found own shut newer =
    let new = record row { epoch = epoch; state = opened; node_id = n } in
    let s' = put_stream s new in
    (
      record s' { epochs = insert (i, epoch) row.end_offset s'.epochs },
      rw
          (
            require-found s i row found,
            not_below row.epoch epoch newer,
            not_same row.epoch epoch newer,
            shut,
          )
          refl,
      get-put_own s new row (ap (λ j. get j s.streams) own ∙ found) own refl,
      get-insert (i, epoch) (i, epoch) row.end_offset s'.epochs ∙ rw (key_refl (i, epoch)) refl,
    )

epoch_refl : (e : ℤ) → (e == e) ≡ true
epoch_refl e = ground (arith, int_ord.cmp_refl e)

id_refl : (i : ℕ) → (i == i) ≡ true
id_refl i = ground (arith, nat_ord.cmp_refl i)

abbrev asked : MetadataState → ℕ → ℤ → ℤ → MetadataState
asked s i from_node to_node = record s {
  pending_transfers =
      insert i (record { from_node = from_node; to_node = to_node }) s.pending_transfers;
}

transfer-asks :
    (s : MetadataState) (i : ℕ) (row : StreamRow) (from_node to_node : ℤ)
    → get i s.streams ≡ some row
    → is_opened row.state ≡ true
    → row.node_id ≡ from_node
    → (from_node == to_node) ≡ false
    → get i s.pending_transfers ≡ none
    → map_or false takes_streams (get to_node s.nodes) ≡ true
    → transfer_stream s i from_node to_node ≡ ok (asked s i from_node to_node, unit)
unfolding transfer_stream transfer_found start_transfer ◌>>◌
transfer-asks s i row from_node to_node found is_open owner other free takes =
    rw (require-found s i row found, free, other, takes, is_open, owner, epoch_refl from_node) refl

close-closes :
    (s : MetadataState) (n : ℤ) (i : ℕ) (row : StreamRow)
    → get i s.streams ≡ some row
    → is_opened row.state ≡ true
    → row.node_id ≡ n
    → close_stream s n i row.epoch ≡ ok (put_stream s (record row { state = closed }), unit)
unfolding close_stream check_owner ◌>>◌
close-closes s n i row found is_open owner =
    rw (require-found s i row found, is_open, owner, epoch_refl n, epoch_refl row.epoch) refl

complete-moves :
    (s : MetadataState) (i : ℕ) (row : StreamRow) (pending : PendingTransfer)
    → get i s.streams ≡ some row
    → is_opened row.state ≡ false
    → get i s.pending_transfers ≡ some pending
    → let s' = put_stream s (record row { node_id = pending.to_node }) in
      complete_transfer s i row.epoch
      ≡ ok (record s' { pending_transfers = remove i s'.pending_transfers }, unit)
unfolding complete_transfer finish_transfer ◌>>◌
complete-moves s i row pending found shut waits =
    rw (waits, complete_transfer)
      (rw (require-found s i row found, shut, epoch_refl row.epoch) refl)

-- Where a stream, stored under its own id, is open on one node, no transfer of it is pending, and
-- another node takes streams: the transfer to that node, the close by the old owner and the
-- completion succeed in turn, and the stream ends closed on the new node, with the epoch and the
-- offsets it had, and no transfer pending.
pub transfer-moves :
    (s : MetadataState) (i : ℕ) (row : StreamRow) (from_node to_node : ℤ)
    → get i s.streams ≡ some row
    → row.stream_id ≡ i
    → is_opened row.state ≡ true
    → row.node_id ≡ from_node
    → (from_node == to_node) ≡ false
    → get i s.pending_transfers ≡ none
    → map_or false takes_streams (get to_node s.nodes) ≡ true
    → (t : MetadataState) × ((do
      (s₁, _) ← transfer_stream s i from_node to_node
      (s₂, _) ← close_stream s₁ from_node i row.epoch
      complete_transfer s₂ i row.epoch)
        ≡ ok (t, unit))
      × (get i t.streams ≡ some (record row { state = closed; node_id = to_node }))
      × (get i t.pending_transfers ≡ none)
unfolding ◌>>=◌
transfer-moves s i row from_node to_node found own is_open owner other free takes =
    let pending : PendingTransfer = record { from_node = from_node; to_node = to_node } in
    let shut = record row { state = closed } in
    let s₁ = asked s i from_node to_node in
    let s₂ = put_stream s₁ shut in
    let moved = record row { state = closed; node_id = to_node } in
    let s₃ = put_stream s₂ moved in
    let under = ap (λ j. get j s.streams) own ∙ found in
    let found₂ = get-put_own s₁ shut row under own refl in
    let waits : get i s₂.pending_transfers ≡ some pending =
      ap (λ (t : MetadataState). get i t.pending_transfers) (put_stream-Only s₁ shut)
      ∙ get-insert i i pending s.pending_transfers
      ∙ ap (λ b. if b then some pending else get i s.pending_transfers) (id_refl i) in
    (
      record s₃ { pending_transfers = remove i s₃.pending_transfers },
      rw
          (
            transfer-asks s i row from_node to_node found is_open owner other free takes,
            close-closes s₁ from_node i row found is_open owner,
            complete-moves s₂ i shut pending found₂ refl waits,
          )
          refl,
      get-put_own s₂ moved shut (ap (λ j. get j s₂.streams) own ∙ found₂) own refl,
      get-remove i i s₃.pending_transfers
          ∙ ap (λ b. if b then none else get i s₃.pending_transfers) (id_refl i),
    )
