-- ===== src/Metadata/SetIndex.antt =====
-- picomq/pico-metadata/src/state.rs and query.rs: the index of stream-set objects by node agrees
-- with the objects, so the query that reads it finds every object.
use mathlib.Core.Path.{subst}
use picomq.Prelude.{
  ℕ, ◌≡◌, refl, sym, ◌∙◌, ap, Bool, true, false, Option, none, some, List, [], ◌∷◌, arith, nat_ord,
  int_ord, pair_ord, ◌==◌, ℤ, u64_max, map_or, map_option, map, keep_if, is_some, Option-cases,
  Bool-cases, inl, inr, for_each, All,
}
use picomq.Engine.{StreamObject}
use picomq.Metadata.Apply.Objects.{insert_stream_object}
use picomq.OrdMap.{
  OrdMap, get, remove, insert, contains_key, get-insert, get-remove, scan, iter, get-members,
  within, range,
}
use picomq.Metadata.State.{StreamSetObjectRow, MetadataState}
use picomq.Metadata.State.Objects.{
  put_prepared, put_range, remove_range, sized_ranges, drop_stream_set_object,
  remove_stream_set_object, remove_stream_object, insert_row, put_stream_object, add_stream_bytes,
  remove_stream_bytes, put_stream_set_object,
}
use picomq.Metadata.State.Kv.{put_kv}
use picomq.Metadata.Query.{get_server_objects, sso_object, all_found}
use picomq.Metadata.Kept.{Kept}
use picomq.Metadata.Kept.Only.{
  remove_prepared-Only, mark_destroyed-Only, remove_destroyed-Only, remove_kv-Only,
}
use picomq.Metadata.Kept.Rest.{WithIds, Kept_of_RestKept}
use picomq.Metadata.Committed.Steps.{
  put_set-SameCommitted, get-remove_set, insert_stream_object-Inserted, remove_object-sets,
}

abbrev pub on_node : ℤ → Option StreamSetObjectRow → Bool
on_node n = map_or false (λ (row : StreamSetObjectRow). row.node_id == n)

pub record SetsAgree (sets : OrdMap ℕ StreamSetObjectRow) (by_node : OrdMap (ℤ × ℕ) (Unit {0}))
    : Type 0 where
  pub agree : (n : ℤ) (i : ℕ) → contains_key (n, i) by_node ≡ on_node n (get i sets)

abbrev pub IsSetIndexed : MetadataState → Type 0
IsSetIndexed s = SetsAgree s.stream_set_objects s.sso_by_node

-- The loops over ranges leave the index alone.
for_each-Same {ℓ} :
    {A : Type ℓ} (f : MetadataState → A → MetadataState)
    → ((s : MetadataState) (a : A) → (f s a).sso_by_node ≡ s.sso_by_node)
    → (s : MetadataState) (xs : List A) → (for_each f s xs).sso_by_node ≡ s.sso_by_node
for_each-Same f step s [] = refl
for_each-Same f step s (x ∷ xs) = for_each-Same f step (f s x) xs ∙ step s x

remove_ranges-by_node :
    (i : ℕ) (s : MetadataState) (row : StreamSetObjectRow)
    → (drop_stream_set_object s i row).sso_by_node ≡ remove (row.node_id, i) s.sso_by_node
unfolding drop_stream_set_object remove_range
remove_ranges-by_node i s row = ap (remove (row.node_id, i)) (
    for_each-Same (remove_range i) (λ t e. refl)
      (record s { stream_set_objects = remove i s.stream_set_objects }) (sized_ranges row))

remove_set-IsSetIndexed :
    (s : MetadataState) (i : ℕ) → IsSetIndexed s → IsSetIndexed (remove_stream_set_object s i)
unfolding remove_stream_set_object
remove_set-IsSetIndexed s i h = elim (Option-cases (get i s.stream_set_objects)) [
  | inl e ↦ rw (e, remove_stream_set_object) h
  | inr (row, e) ↦ record {
    agree = λ n j.
        let by_node : (remove_stream_set_object s i).sso_by_node
            ≡ remove (row.node_id, i) s.sso_by_node =
          rw (e, remove_stream_set_object) (remove_ranges-by_node i s row) in
        ap (contains_key (n, j)) by_node
        ∙ ground (
          arith,
          get-remove (n, j) (row.node_id, i) s.sso_by_node,
          h.agree n j,
          e,
          get-remove_set s i j,
          nat_ord.eq_of_cmp j i,
          int_ord.eq_of_cmp n row.node_id,
          int_ord.eq_of_cmp row.node_id n,
          int_ord.cmp_refl n,
        );
  }
]

put_set-IsSetIndexed :
    (s : MetadataState) (row : StreamSetObjectRow)
    → IsSetIndexed s
    → IsSetIndexed (put_stream_set_object s row)
unfolding put_stream_set_object put_range
put_set-IsSetIndexed s row h =
    let i = row.object.object_id in
    let t = remove_stream_set_object s i in
    let k = remove_set-IsSetIndexed s i h in
    let by_node =
      ap (insert (row.node_id, i) tt)
        (for_each-Same (put_range i) (λ u e. refl) t (sized_ranges row)) in
    let sets = (put_set-SameCommitted s row).sets in
    record {
      agree = λ n j.
          ap (contains_key (n, j)) by_node
          ∙ ground (
            arith,
            get-insert (n, j) (row.node_id, i) tt t.sso_by_node,
            k.agree n j,
            get-insert j i row t.stream_set_objects,
            get-remove_set s i j,
            nat_ord.eq_of_cmp j i,
            int_ord.eq_of_cmp n row.node_id,
            int_ord.eq_of_cmp row.node_id n,
            int_ord.cmp_refl n,
          )
          ∙ sym (ap (λ m. on_node n (get j m)) sets);
    }

remove_object-by_node :
    (s : MetadataState) (i : ℕ) → (remove_stream_object s i).sso_by_node ≡ s.sso_by_node
unfolding remove_stream_object remove_stream_bytes
remove_object-by_node s i = elim (Option-cases (get i s.stream_object_ids)) [
  | inl e ↦ rw (e, remove_stream_object) refl
  | inr (k, e) ↦ elim (Option-cases (get k s.stream_objects)) [
    | inl f ↦ rw (e, remove_stream_object) (rw f refl)
    | inr (row, f) ↦ rw (e, remove_stream_object) (rw f refl)
  ]
]

insert_object-by_node :
    (s : MetadataState) (o : StreamObject) (d n l : ℤ)
    → (insert_stream_object s o d n l).sso_by_node ≡ s.sso_by_node
unfolding insert_stream_object put_stream_object insert_row add_stream_bytes
insert_object-by_node s o d n l = remove_object-by_node s o.object_id

pub IsSetIndexed-Kept : Kept (WithIds IsSetIndexed)
unfolding put_kv put_prepared
IsSetIndexed-Kept =
    let Q = IsSetIndexed in
    Kept_of_RestKept (record {
      rows = λ s t h. h;
      next = λ s n h. h;
      nodes = λ s m h. h;
      pending = λ s m h. h;
      epochs = λ s m h. h;
      producers = λ s n h. h;
      lease = λ s deadline fits h. h;
      unprepare = λ s i h. subst Q (sym (remove_prepared-Only s i)) h;
      put_set = λ s row a b h. put_set-IsSetIndexed s row h;
      remove_set = remove_set-IsSetIndexed;
      put_object = λ s o d n l a b h.
          let f = insert_stream_object-Inserted s o d n l in
          record { agree = λ m i. rw (insert_object-by_node s o d n l, f.sets) (h.agree m i) };
      remove_object = λ s i h. record {
        agree = λ m j. rw (remove_object-by_node s i, remove_object-sets s i) (h.agree m j);
      };
      mark = λ s i op h. subst Q (sym (mark_destroyed-Only s i op)) h;
      clean = λ s i h. subst Q (sym (remove_destroyed-Only s i)) h;
      store = λ s key value h. h;
      unstore = λ s key h. subst Q (sym (remove_kv-Only s key)) h;
    })

All-keep_if {ℓ κ} :
    {A : Type ℓ} (P : A → Type κ) (p : A → Bool) (xs : List A) → All P xs → All P (keep_if p xs)
All-keep_if P p [] h = tt
All-keep_if P p (x ∷ xs) h = elim (Bool-cases (p x)) [
  | inl e ↦ rw e (h.0, All-keep_if P p xs h.1)
  | inr e ↦ rw e (All-keep_if P p xs h.1)
]

All-map {ℓ κ μ} :
    {A : Type ℓ} (P : A → Type κ) (Q : A → Type μ) (xs : List A)
    → ((x : A) → P x → Q x)
    → All P xs
    → All Q xs
All-map P Q [] f h = tt
All-map P Q (x ∷ xs) f h = (f x h.0, All-map P Q xs f h.1)

is_some-map_option {ℓ κ} :
    {A : Type ℓ} {B : Type κ} (f : A → B) (o : Option A) → is_some (map_option f o) ≡ is_some o
is_some-map_option f none = refl
is_some-map_option f (some a) = refl

-- Lookups of ids that are all there.
abbrev Entry : MetadataState → (ℤ × ℕ) × Unit {0} → Type 0
Entry s e = is_some (get e.0.1 s.stream_set_objects) ≡ true

lookups-found :
    (s : MetadataState) (xs : List ((ℤ × ℕ) × Unit {0}))
    → All (Entry s) xs
    → is_some (all_found (map (sso_object s) (map (λ (e : (ℤ × ℕ) × Unit {0}). e.0.1) xs))) ≡ true
lookups-found s [] h = refl
lookups-found s (((n, i), u) ∷ xs) h = elim (Option-cases (get i s.stream_set_objects)) [
  | inl e ↦ absurd (none_found i e h.0)
  | inr (row, e) ↦ rw e (is_some-map_option _ _ ∙ lookups-found s xs h.1)
]
  where
    none_found :
        (i : ℕ)
        → get i s.stream_set_objects ≡ none
        → is_some (get i s.stream_set_objects) ≡ true
        → ⊥
    none_found i e f = cc

entry :
    (s : MetadataState)
    → IsSetIndexed s
    → (e : (ℤ × ℕ) × Unit {0}) → get e.0 s.sso_by_node ≡ some e.1
    → Entry s e
entry s h ((n, i), u) found = ground (arith, h.agree n i, found)

pub get_server_objects-found :
    (s : MetadataState) (n : ℤ) → IsSetIndexed s → is_some (get_server_objects s n) ≡ true
unfolding get_server_objects scan iter
get_server_objects-found s n h = lookups-found s (range (n, 0) (n, u64_max) s.sso_by_node) (
    All-keep_if (Entry s) (within (n, 0) (n, u64_max)) (iter s.sso_by_node) (
      All-map (λ (e : (ℤ × ℕ) × Unit {0}). get e.0 s.sso_by_node ≡ some e.1) (Entry s)
        (iter s.sso_by_node) (entry s h) (get-members s.sso_by_node)))
