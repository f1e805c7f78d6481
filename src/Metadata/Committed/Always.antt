-- ===== src/Metadata/Committed/Always.antt =====
-- The tables of committed objects agree after every command.
use mathlib.Core.Path.{subst}
use picomq.Prelude.{
  ℕ, ◌≡◌, sym, ◌∙◌, ap, Bool, true, false, Option, none, some, arith, nat_ord, pair_ord, ◌==◌,
  eq_of_test, ℤ, map_or, Option-cases, Bool-cases, inl, inr, if◌then◌else◌,
}
use picomq.Engine.{StreamObject}
use picomq.OrdMap.{get, get-insert}
use picomq.Metadata.State.{StreamSetObjectRow, StreamOffsetKey, MetadataState}
use picomq.Metadata.State.Objects.{
  put_prepared, remove_stream_set_object, put_stream_set_object, remove_stream_object,
}
use picomq.Metadata.State.Kv.{put_kv}
use picomq.Metadata.Apply.Objects.{insert_stream_object, another_key}
use picomq.Metadata.Apply.Commit.{object_key}
use picomq.Metadata.Kept.{Kept}
use picomq.Metadata.Kept.Only.{
  remove_prepared-Only, mark_destroyed-Only, remove_destroyed-Only, remove_kv-Only,
}
use picomq.Metadata.Kept.Rest.{WithIds, Kept_of_RestKept}
use picomq.Metadata.Committed.Steps.{
  get-remove_set, remove_set-others, put_set-SameCommitted, get-ids-remove_object, is_key,
  get-objects-remove_object, remove_object-sets, object_row, insert_stream_object-Inserted,
}
use picomq.Metadata.Committed.{key_of, IsCommitted}

remove_set-IsCommitted :
    (s : MetadataState) (i : ℕ) → IsCommitted s → IsCommitted (remove_stream_set_object s i)
remove_set-IsCommitted s i h =
    let (objects, ids) = remove_set-others s i in
    record {
      set_own = λ j row e. h.set_own j row (ground (arith, get-remove_set s i j, e));
      apart = λ j key e. rw (get-remove_set s i j) (ground (arith, h.apart j key (rw⁻¹ ids e)));
      key_own = λ j key e. h.key_own j key (rw⁻¹ ids e);
      row_of = λ j key e. rw objects (h.row_of j key (rw⁻¹ ids e));
      id_of = λ key row e. rw ids (h.id_of key row (rw⁻¹ objects e));
      row_own = λ key row e. h.row_own key row (rw⁻¹ objects e);
    }

put_set-IsCommitted :
    (s : MetadataState) (row : StreamSetObjectRow)
    → get row.object.object_id s.stream_set_objects ≡ none
    → get row.object.object_id s.stream_object_ids ≡ none
    → IsCommitted s
    → IsCommitted (put_stream_set_object s row)
put_set-IsCommitted s row no_set no_object h =
    let i = row.object.object_id in
    let (objects, ids) = remove_set-others s i in
    let f = put_set-SameCommitted s row in
    let t = remove_stream_set_object s i in
    let sets : (j : ℕ)
        → get j (put_stream_set_object s row).stream_set_objects
          ≡ (if j == i then some row else get j s.stream_set_objects) =
      λ j.
        ap (get j) f.sets
        ∙ ground (arith, get-insert j i row t.stream_set_objects, get-remove_set s i j) in
    let ids' = f.ids ∙ ids in
    let objects' = f.objects ∙ objects in
    record {
      set_own = λ j new e. ground (arith, sets j, e, h.set_own j new, nat_ord.eq_of_cmp j i);
      apart = λ j key e.
          let e' : get j s.stream_object_ids ≡ some key = rw⁻¹ ids' e in
          ground (arith, sets j, e', h.apart j key e', nat_ord.eq_of_cmp j i, no_object);
      key_own = λ j key e. h.key_own j key (rw⁻¹ ids' e);
      row_of = λ j key e. rw objects' (h.row_of j key (rw⁻¹ ids' e));
      id_of = λ key old e. rw ids' (h.id_of key old (rw⁻¹ objects' e));
      row_own = λ key old e. h.row_own key old (rw⁻¹ objects' e);
    }

-- A key is not another one than itself.
is_key-own : (key : StreamOffsetKey) → is_key key (some key) ≡ false → ⊥
is_key-own key h =
    ground (arith, nat_ord.cmp_refl key.0, nat_ord.cmp_refl key.1.0, nat_ord.cmp_refl key.1.1)

remove_object-IsCommitted :
    (s : MetadataState) (i : ℕ) → IsCommitted s → IsCommitted (remove_stream_object s i)
remove_object-IsCommitted s i h =
    let sets = remove_object-sets s i in
    let ids = get-ids-remove_object s i in
    let objects = get-objects-remove_object s i in
    record {
      set_own = λ j row e. h.set_own j row (rw⁻¹ sets e);
      apart = λ j key e. rw sets (h.apart j key (ground (arith, ids j, e)));
      key_own = λ j key e. h.key_own j key (ground (arith, ids j, e));
      row_of = λ j key e.
          let f : get j s.stream_object_ids ≡ some key = ground (arith, ids j, e) in
          elim (Option-cases (get i s.stream_object_ids)) [
            | inl g ↦ ground (arith, objects key, g, h.row_of j key f)
            | inr (k, g) ↦ ground (
              arith,
              objects key,
              g,
              h.row_of j key f,
              h.key_own j key f,
              h.key_own i k g,
              eq_of_test key k,
              ids j,
              e,
              nat_ord.cmp_refl j,
            )
          ];
      id_of = λ key row e.
          let f : get key s.stream_objects ≡ some row = ground (arith, objects key, e) in
          elim (Bool-cases (key.1.1 == i)) [
            | inl g ↦
                let k : get i s.stream_object_ids ≡ some key =
                  ap (λ x. get x s.stream_object_ids) (sym (eq_of_test key.1.1 i g))
                  ∙ h.id_of key row f in
                absurd (is_key-own key (ground (arith, objects key, e, k)))
            | inr g ↦ ground (arith, ids key.1.1, h.id_of key row f, g)
          ];
      row_own = λ key row e. h.row_own key row (ground (arith, objects key, e));
    }

is_eq_refl : (k : StreamOffsetKey) → (k == k) ≡ true
is_eq_refl k = ground (arith, nat_ord.cmp_refl k.0, nat_ord.cmp_refl k.1.0, nat_ord.cmp_refl k.1.1)

-- A key found under an id that may be used again is the key in use.
own_key :
    (key okey : StreamOffsetKey) (o : Option StreamOffsetKey)
    → map_or false (another_key (some okey)) o ≡ false
    → is_key key o ≡ true
    → (key == okey) ≡ true
own_key key okey none own h = cc
own_key key okey (some k) own h =
    let a : key ≡ k = eq_of_test key k h in
    let b : okey ≡ k = eq_of_test okey k (ground (arith, own)) in rw (a ∙ sym b) (is_eq_refl okey)

own_false :
    (key okey : StreamOffsetKey) (o : Option StreamOffsetKey)
    → map_or false (another_key (some okey)) o ≡ false
    → o ≡ some key
    → (key == okey) ≡ false
    → ⊥
own_false key okey o own found other =
    true_false (own_key key okey o own (rw found (is_eq_refl key))) other
  where
    true_false : {b : Bool} → b ≡ true → b ≡ false → ⊥
    true_false p q = cc

-- An object id may only be used again under its own key.
-- An object id may only be used again under its own key.
put_object-IsCommitted :
    (s : MetadataState) (o : StreamObject) (d n l : ℤ)
    → get o.object_id s.stream_set_objects ≡ none
    → map_or false (another_key (some (object_key o))) (get o.object_id s.stream_object_ids) ≡ false
    → IsCommitted s
    → IsCommitted (insert_stream_object s o d n l)
put_object-IsCommitted s o d n l no_set own h =
    let f = insert_stream_object-Inserted s o d n l in
    let t = insert_stream_object s o d n l in
    let row = object_row o d n l in
    let okey = object_key o in
    let objects : (key : StreamOffsetKey)
        → get key t.stream_objects ≡ (if key == okey then some row else get key s.stream_objects) =
      λ key.
        ground (arith, f.objects key, own_key key okey (get o.object_id s.stream_object_ids) own) in
    record {
      set_own = λ j old e. h.set_own j old (rw⁻¹ f.sets e);
      apart = λ j key e.
          rw f.sets
            (ground (arith, f.ids j, e, h.apart j key, no_set, nat_ord.eq_of_cmp j o.object_id));
      key_own =
          λ j key e. ground (arith, f.ids j, e, h.key_own j key, nat_ord.eq_of_cmp j o.object_id);
      row_of = λ j key e. elim (Bool-cases (key == okey)) [
        | inl g ↦ ground (arith, objects key, g)
        | inr g ↦ ground (
          arith,
          objects key,
          g,
          h.row_of j key,
          f.ids j,
          e,
          nat_ord.cmp_refl okey.0,
          nat_ord.cmp_refl okey.1.0,
          nat_ord.cmp_refl okey.1.1,
        )
      ];
      id_of = λ key old e. elim (Bool-cases (key == okey)) [
        | inl g ↦
            rw (eq_of_test key okey g)
              (ground (arith, f.ids o.object_id, nat_ord.cmp_refl o.object_id))
        | inr g ↦
            let found = h.id_of key old (ground (arith, objects key, e, g)) in
            elim (Bool-cases (key.1.1 == o.object_id)) [
              | inl k ↦ absurd (
                  own_false key okey (get o.object_id s.stream_object_ids) own
                    (ap (λ x. get x s.stream_object_ids) (sym (eq_of_test key.1.1 o.object_id k))
                      ∙ found)
                    g)
              | inr k ↦ ground (arith, f.ids key.1.1, k, found)
            ]
      ];
      row_own = λ key old e. elim (Bool-cases (key == okey)) [
        | inl g ↦
            let p : some row ≡ some old = ground (arith, objects key, e, g) in
            sym (ap (map_or none key_of) p) ∙ ap some (sym (eq_of_test key okey g))
        | inr g ↦ h.row_own key old (ground (arith, objects key, e, g))
      ];
    }

pub IsCommitted-Kept : Kept (WithIds IsCommitted)
unfolding put_kv put_prepared
IsCommitted-Kept =
    let Q = IsCommitted in
    Kept_of_RestKept (record {
      rows = λ s t h. h;
      next = λ s n h. h;
      nodes = λ s m h. h;
      pending = λ s m h. h;
      epochs = λ s m h. h;
      producers = λ s n h. h;
      lease = λ s deadline fits h. h;
      unprepare = λ s i h. subst Q (sym (remove_prepared-Only s i)) h;
      put_set = put_set-IsCommitted;
      remove_set = remove_set-IsCommitted;
      put_object = put_object-IsCommitted;
      remove_object = remove_object-IsCommitted;
      mark = λ s i op h. subst Q (sym (mark_destroyed-Only s i op)) h;
      clean = λ s i h. subst Q (sym (remove_destroyed-Only s i)) h;
      store = λ s key value h. h;
      unstore = λ s key h. subst Q (sym (remove_kv-Only s key)) h;
    })
