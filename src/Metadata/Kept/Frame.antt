-- ===== src/Metadata/Kept/Frame.antt =====
-- The writes to objects, leases and the key-value table leave nodes, stream rows and node indexes
-- alone, but for the byte count of a row.
use picomq.Prelude.{
  ℕ, ◌≡◌, refl, sym, ◌∙◌, ap, Bool, true, false, Option, none, some, List, [], ◌∷◌, arith, nat_ord,
  int_ord, pair_ord, ◌==◌, ℤ, map_option, for_each, Option-cases, inl, inr, if◌then◌else◌,
  bytes_ord, add_u64, sub_u64,
}
use picomq.Engine.{CompactOperations, StreamObject, StreamOffsetRange}
use picomq.OrdMap.{OrdMap, get, remove, get-update, update, sum, sum-insert}
use picomq.Metadata.Command.{Text, Bytes}
use picomq.Metadata.State.{
  StreamRow, NodeRow, StreamSetObjectRow, StreamObjectRow, StreamOffsetKey, MetadataState,
}
use picomq.Metadata.State.Objects.{
  add_stream_bytes, remove_stream_bytes, put_range, remove_range, sized_ranges,
  drop_stream_set_object, drop_sso_found, remove_stream_set_object, put_stream_set_object,
  drop_row_found, drop_key_found, remove_stream_object, insert_row, insert_first, put_stream_object,
  unprepare, remove_prepared, undestroy, remove_destroyed, put_destroyed,
}
use picomq.Metadata.State.Kv.{remove_found, remove_kv}
use picomq.Metadata.Apply.Streams.{mark_destroyed}
use picomq.Metadata.Apply.Objects.{insert_stream_object}

-- A row without its byte count.
abbrev pub bare : StreamRow → StreamRow
bare row = record row { stored_bytes = 0 }

-- The part of the state that streams and nodes live in.
pub record View : Type 0 where
  pub next_stream_id : ℕ
  pub streams : OrdMap ℕ StreamRow
  pub nodes : OrdMap ℤ NodeRow
  pub opening_by_node : OrdMap (ℤ × ℕ) (Unit {0})
  pub placed_by_node : OrdMap (ℤ × ℕ) (Unit {0})
  pub streams_by_node : OrdMap ℤ ℕ

abbrev pub view : MetadataState → View
view s = record {
  next_stream_id = s.next_stream_id;
  streams = s.streams;
  nodes = s.nodes;
  opening_by_node = s.opening_by_node;
  placed_by_node = s.placed_by_node;
  streams_by_node = s.streams_by_node;
}

pub record SameView (v w : View) : Type 0 where
  pub next : w.next_stream_id ≡ v.next_stream_id
  pub nodes : w.nodes ≡ v.nodes
  pub opening : w.opening_by_node ≡ v.opening_by_node
  pub placed : w.placed_by_node ≡ v.placed_by_node
  pub counts : w.streams_by_node ≡ v.streams_by_node
  pub rows : (i : ℕ) → map_option bare (get i w.streams) ≡ map_option bare (get i v.streams)
  pub sums :
      (f : StreamRow → ℕ)
      → ((row : StreamRow) → f (bare row) ≡ f row)
      → sum f w.streams ≡ sum f v.streams

abbrev pub Same : MetadataState → MetadataState → Type 0
Same s t = SameView (view s) (view t)

pub Same-refl : (s : MetadataState) → Same s s
Same-refl s = record {
  next = refl;
  nodes = refl;
  opening = refl;
  placed = refl;
  counts = refl;
  rows = λ i. refl;
  sums = λ f h. refl;
}

Same-trans : {v w x : View} → SameView v w → SameView w x → SameView v x
Same-trans h k = record {
  next = k.next ∙ h.next;
  nodes = k.nodes ∙ h.nodes;
  opening = k.opening ∙ h.opening;
  placed = k.placed ∙ h.placed;
  counts = k.counts ∙ h.counts;
  rows = λ i. k.rows i ∙ h.rows i;
  sums = λ f e. k.sums f e ∙ h.sums f e;
}

for_each-Same {ℓ} :
    {A : Type ℓ} (f : MetadataState → A → MetadataState)
    → ((s : MetadataState) (a : A) → Same s (f s a))
    → (s : MetadataState) (xs : List A) → Same s (for_each f s xs)
for_each-Same f step s [] = Same-refl s
for_each-Same f step s (x ∷ xs) = Same-trans (step s x) (for_each-Same f step (f s x) xs)

-- An update that `bare` does not see.
update-bare :
    (i j : ℕ) (f : StreamRow → StreamRow) (s : MetadataState)
    → ((row : StreamRow) → bare (f row) ≡ bare row)
    → map_option bare (get j (update i f s.streams)) ≡ map_option bare (get j s.streams)
update-bare i j f s h = rw get-update (split (j == i) (get j s.streams))
  where
    split :
        (b : Bool) (o : Option StreamRow)
        → map_option bare (if b then map_option f o else o) ≡ map_option bare o
    split true none = refl
    split true (some row) = ap some (h row)
    split false o = refl

sum-update :
    (w : StreamRow → ℕ) (i : ℕ) (f : StreamRow → StreamRow) (m : OrdMap ℕ StreamRow)
    → ((row : StreamRow) → w (f row) ≡ w row)
    → sum w (update i f m) ≡ sum w m
sum-update w i f m h = elim (Option-cases (get i m)) [
  | inl e ↦ rw e refl
  | inr (row, e) ↦ rw e (ground (arith, e, sum-insert w i (f row) m, h row))
]

update-Same :
    (i : ℕ) (f : StreamRow → StreamRow) (s : MetadataState)
    → ((row : StreamRow) → bare (f row) ≡ bare row)
    → Same s (record s { streams = update i f s.streams })
update-Same i f s h = record {
  next = refl;
  nodes = refl;
  opening = refl;
  placed = refl;
  counts = refl;
  rows = λ j. update-bare i j f s h;
  sums = λ w e. sum-update w i f s.streams (λ row. sym (e (f row)) ∙ ap w (h row) ∙ e row);
}

add_stream_bytes-Same : (s : MetadataState) (i bytes : ℕ) → Same s (add_stream_bytes s i bytes)
unfolding add_stream_bytes
add_stream_bytes-Same s i bytes =
    update-Same i
      (λ (row : StreamRow). record row { stored_bytes = add_u64 row.stored_bytes bytes }) s
      (λ row. refl)

remove_stream_bytes-Same :
    (s : MetadataState) (i bytes : ℕ) → Same s (remove_stream_bytes s i bytes)
unfolding remove_stream_bytes
remove_stream_bytes-Same s i bytes =
    update-Same i
      (λ (row : StreamRow). record row { stored_bytes = sub_u64 row.stored_bytes bytes }) s
      (λ row. refl)

put_range-Same :
    (id : ℕ) (s : MetadataState) (e : StreamOffsetRange × ℕ) → Same s (put_range id s e)
unfolding put_range
put_range-Same id s (r, size) = add_stream_bytes-Same s r.stream_id size

remove_range-Same :
    (id : ℕ) (s : MetadataState) (e : StreamOffsetRange × ℕ) → Same s (remove_range id s e)
unfolding remove_range
remove_range-Same id s (r, size) = remove_stream_bytes-Same s r.stream_id size

drop_stream_set_object-Same :
    (s : MetadataState) (id : ℕ) (row : StreamSetObjectRow)
    → Same s (drop_stream_set_object s id row)
unfolding drop_stream_set_object
drop_stream_set_object-Same s id row =
    for_each-Same (remove_range id) (remove_range-Same id)
      (record s { stream_set_objects = remove id s.stream_set_objects }) (sized_ranges row)

drop_sso_found-Same :
    (s : MetadataState) (id : ℕ) (found : Option StreamSetObjectRow)
    → Same s (drop_sso_found s id found)
drop_sso_found-Same s id none = Same-refl s
drop_sso_found-Same s id (some row) = drop_stream_set_object-Same s id row

pub remove_stream_set_object-Same :
    (s : MetadataState) (id : ℕ) → Same s (remove_stream_set_object s id)
unfolding remove_stream_set_object
remove_stream_set_object-Same s id = drop_sso_found-Same s id (get id s.stream_set_objects)

pub put_stream_set_object-Same :
    (s : MetadataState) (row : StreamSetObjectRow) → Same s (put_stream_set_object s row)
unfolding put_stream_set_object
put_stream_set_object-Same s row =
    let id = row.object.object_id in
    Same-trans (remove_stream_set_object-Same s id) (
      for_each-Same (put_range id) (put_range-Same id) (remove_stream_set_object s id)
        (sized_ranges row))

drop_row_found-Same :
    (s : MetadataState) (key : StreamOffsetKey) (found : Option StreamObjectRow)
    → Same s (drop_row_found s key found)
unfolding remove_stream_bytes
drop_row_found-Same s key none = Same-refl s
drop_row_found-Same s key (some row) =
    let taken = record s { stream_objects = remove key s.stream_objects } in
    remove_stream_bytes-Same taken key.0 row.object.object_size

drop_key_found-Same :
    (s : MetadataState) (id : ℕ) (found : Option StreamOffsetKey)
    → Same s (drop_key_found s id found)
drop_key_found-Same s id none = Same-refl s
drop_key_found-Same s id (some key) =
    drop_row_found-Same (record s { stream_object_ids = remove id s.stream_object_ids }) key
      (get key s.stream_objects)

pub remove_stream_object-Same : (s : MetadataState) (id : ℕ) → Same s (remove_stream_object s id)
unfolding remove_stream_object
remove_stream_object-Same s id = drop_key_found-Same s id (get id s.stream_object_ids)

insert_first-Same :
    (s : MetadataState) (row : StreamObjectRow) (ranges : List StreamOffsetRange)
    → Same s (insert_first s row ranges)
unfolding insert_row
insert_first-Same s row [] = Same-refl s
insert_first-Same s row (r ∷ _) = add_stream_bytes-Same s r.stream_id row.object.object_size

put_stream_object-Same :
    (s : MetadataState) (row : StreamObjectRow) → Same s (put_stream_object s row)
unfolding put_stream_object
put_stream_object-Same s row =
    let id = row.object.object_id in
    Same-trans (remove_stream_object-Same s id)
      (insert_first-Same (remove_stream_object s id) row row.object.offset_ranges)

pub insert_stream_object-Same :
    (s : MetadataState) (o : StreamObject) (d n l : ℤ) → Same s (insert_stream_object s o d n l)
unfolding insert_stream_object
insert_stream_object-Same s o d n l = put_stream_object-Same s _

pub mark_destroyed-Same :
    (s : MetadataState) (id : ℕ) (op : CompactOperations) → Same s (mark_destroyed s id op)
unfolding mark_destroyed put_destroyed
mark_destroyed-Same s id op = elim (Option-cases (get id s.destroyed_by_id)) [
  | inl e ↦ rw (e, mark_destroyed) (Same-refl s)
  | inr (seq, e) ↦ rw (e, mark_destroyed) (Same-refl s)
]

undestroy-Same : (s : MetadataState) (id : ℕ) (found : Option ℕ) → Same s (undestroy s id found)
undestroy-Same s id none = Same-refl s
undestroy-Same s id (some seq) = Same-refl s

pub remove_destroyed-Same : (s : MetadataState) (id : ℕ) → Same s (remove_destroyed s id)
unfolding remove_destroyed
remove_destroyed-Same s id = undestroy-Same s id (get id s.destroyed_by_id)

unprepare-Same : (s : MetadataState) (id : ℕ) (found : Option ℤ) → Same s (unprepare s id found)
unprepare-Same s id none = Same-refl s
unprepare-Same s id (some deadline) = Same-refl s

pub remove_prepared-Same : (s : MetadataState) (id : ℕ) → Same s (remove_prepared s id)
unfolding remove_prepared
remove_prepared-Same s id = unprepare-Same s id (get id s.prepared)

remove_found-Same :
    (s : MetadataState) (key : Text) (found : Option Bytes) → Same s (remove_found s key found).0
remove_found-Same s key none = Same-refl s
remove_found-Same s key (some old) = Same-refl s

pub remove_kv-Same : (s : MetadataState) (key : Text) → Same s (remove_kv s key).0
unfolding remove_kv
remove_kv-Same s key = remove_found-Same s key (get key s.kv)
