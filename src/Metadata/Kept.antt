-- ===== src/Metadata/Kept.antt =====
-- An invariant of the metadata state by its parts: `Kept P` asks that each primitive write of
-- picomq/pico-metadata/src/apply.rs keeps `P`, under what the code has checked before that write.
-- The modules below show that every command then keeps `P`.
pub mod Nodes
pub mod Streams
pub mod Objects
pub mod Commit
pub mod Apply
pub mod Frame
pub mod Rows
pub mod Only
pub mod Rest
pub mod Ids
use picomq.Prelude.{
  ℕ, suc, ◌+◌, ◌≤◌, ◌<◌, ◌≡◌, Bool, true, false, ◌⊎◌, Option, none, some, List, [], ◌∷◌, int_ord,
  nat_ord, pair_ord, bytes_ord, ltb, leb, ℤ, i64_min, i64_max, u64_mod, add_u64, map_or, for_each,
}
use picomq.Engine.{is_opened, CompactOperations, StreamObject}
use picomq.OrdMap.{OrdMap, get, insert}
use picomq.Metadata.Command
use picomq.Metadata.Command.{Text, Bytes, MetadataCommand, Registration}
use picomq.Metadata.State.{
  StreamRow, NodeRow, PendingTransfer, StreamSetObjectRow, MetadataState, put_stream, remove_stream,
}
use picomq.Metadata.State.Objects.{
  put_prepared, remove_prepared, put_stream_set_object, remove_stream_set_object,
  remove_stream_object, remove_destroyed,
}
use picomq.Metadata.State.Kv.{put_kv, remove_kv}
use picomq.Metadata.Apply.Streams.{created, mark_destroyed}
use picomq.Metadata.Apply.Objects.{insert_stream_object, another_key}
use picomq.Metadata.Apply.Commit.{object_key}

-- What a later row of a stream may be: the epoch and the start do not fall, and within one epoch
-- an opened stream was opened before, on the same node.
pub record RowSucceeds (old new : StreamRow) : Type 0 where
  pub same_id : new.stream_id ≡ old.stream_id
  pub start_grows : old.start_offset ≤ new.start_offset
  pub epoch_grows :
      (ltb old.epoch new.epoch ≡ true)
      ⊎ ((old.epoch ≡ new.epoch)
          × (is_opened new.state ≡ true
              → (is_opened old.state ≡ true) × (new.node_id ≡ old.node_id)))

-- What a later row of a node may be: a newer incarnation, or the same one, fenced if it was.
abbrev pub NodeSucceeds : Option NodeRow → NodeRow → Type 0
NodeSucceeds none new = Unit
NodeSucceeds (some old) new =
    (ltb old.epoch new.epoch ≡ true)
    ⊎ ((new.epoch ≡ old.epoch) × (old.fenced ≡ true → new.fenced ≡ true))

-- A stream stands under its own id, below the next id.
pub record HasIds (s : MetadataState) : Type 0 where
  pub own : (i : ℕ) (row : StreamRow) → get i s.streams ≡ some row → row.stream_id ≡ i
  pub fresh : (i : ℕ) (row : StreamRow) → get i s.streams ≡ some row → i < s.next_stream_id

-- The state after one more object id is leased.
abbrev pub leased : MetadataState → ℤ → MetadataState
leased s deadline =
    put_prepared (record s { next_object_id = add_u64 s.next_object_id 1 }) s.next_object_id
      deadline

-- An epoch that the next registration can pass.
abbrev pub EpochFits : Option NodeRow → Type 0
EpochFits none = Unit
EpochFits (some node) = (leb i64_min node.epoch ≡ true) × (ltb node.epoch i64_max ≡ true)

-- The counter that a command advances does not pass the end of its machine type.
abbrev pub Fits : MetadataState → MetadataCommand → Type 0
Fits s (Command.register_node r) = EpochFits (get r.node_id s.nodes)
Fits s (Command.create_stream _) = s.next_stream_id + 1 < u64_mod
Fits s (Command.create_streams _ count) = s.next_stream_id + count < u64_mod
Fits s (Command.allocate_producer_ids _ count) = s.next_producer_id + count < u64_mod
Fits s (Command.prepare_object _ count _ _) = s.next_object_id + count < u64_mod
Fits s _ = Unit

pub record Kept (P : MetadataState → Type 0) : Type 0 where
  pub ids : (s : MetadataState) → P s → HasIds s
  pub put :
      (s : MetadataState) (old new : StreamRow)
      → get new.stream_id s.streams ≡ some old
      → RowSucceeds old new
      → P s
      → P (put_stream s new)
  pub create : (s : MetadataState) → s.next_stream_id + 1 < u64_mod → P s → P (created s)
  pub delete : (s : MetadataState) (i : ℕ) → P s → P (remove_stream s i)
  pub nodes :
      (s : MetadataState) (n : ℤ) (new : NodeRow)
      → NodeSucceeds (get n s.nodes) new
      → P s
      → P (record s { nodes = insert n new s.nodes })
  pub pending :
      (s : MetadataState) (m : OrdMap ℕ PendingTransfer)
      → P s
      → P (record s { pending_transfers = m })
  pub epochs : (s : MetadataState) (m : OrdMap (ℕ × ℤ) ℕ) → P s → P (record s { epochs = m })
  pub producers :
      (s : MetadataState) (n : ℕ)
      → s.next_producer_id ≤ n
      → P s
      → P (record s { next_producer_id = n })
  pub lease :
      (s : MetadataState) (deadline : ℤ)
      → s.next_object_id + 1 < u64_mod
      → P s
      → P (leased s deadline)
  pub unprepare : (s : MetadataState) (i : ℕ) → P s → P (remove_prepared s i)
  pub put_set :
      (s : MetadataState) (row : StreamSetObjectRow)
      → get row.object.object_id s.stream_set_objects ≡ none
      → get row.object.object_id s.stream_object_ids ≡ none
      → P s
      → P (put_stream_set_object s row)
  pub remove_set : (s : MetadataState) (i : ℕ) → P s → P (remove_stream_set_object s i)
  pub put_object :
      (s : MetadataState) (o : StreamObject) (data_time_ms now_ms last_write_ms : ℤ)
      → get o.object_id s.stream_set_objects ≡ none
      → map_or false (another_key (some (object_key o))) (get o.object_id s.stream_object_ids)
        ≡ false
      → P s
      → P (insert_stream_object s o data_time_ms now_ms last_write_ms)
  pub remove_object : (s : MetadataState) (i : ℕ) → P s → P (remove_stream_object s i)
  pub mark : (s : MetadataState) (i : ℕ) (op : CompactOperations) → P s → P (mark_destroyed s i op)
  pub clean : (s : MetadataState) (i : ℕ) → P s → P (remove_destroyed s i)
  pub store : (s : MetadataState) (key : Text) (value : Bytes) → P s → P (put_kv s key value)
  pub unstore : (s : MetadataState) (key : Text) → P s → P (remove_kv s key).0

-- A loop keeps what its rounds keep.
pub for_each-keeps {ℓ κ μ} :
    {S : Type ℓ} {A : Type κ} (P : S → Type μ) (f : S → A → S)
    → ((s : S) (a : A) → P s → P (f s a))
    → (s : S) (xs : List A) → P s
    → P (for_each f s xs)
for_each-keeps P f keep s [] h = h
for_each-keeps P f keep s (x ∷ xs) h = for_each-keeps P f keep (f s x) xs (keep s x h)
