-- ===== src/Metadata/Leases.antt =====
-- picomq/pico-metadata/src/apply.rs and state.rs: the leases of object ids with their deadlines.
pub mod Effects
use mathlib.Core.Path.{subst}
use picomq.Prelude.{
  ℕ, ◌+◌, ◌<◌, ◌≤◌, ◌≡◌, refl, sym, ◌∙◌, ap, Bool, true, false, not, ◌&&◌, Option, none, some, List,
  [], ◌∷◌, arith, nat_ord, int_ord, pair_ord, ◌==◌, leb, ℤ, u64_mod, u64_max, add_u64, map_or,
  is_some, if◌then◌else◌, contains, for_each, length, Option-cases, Bool-cases, inl, inr,
}
use picomq.OrdMap.{
  OrdMap, get, insert, remove, contains_key, get-insert, get-remove, scan, keys_of,
  contains-keys_of-scan,
}
use picomq.Metadata.Error.{ok}
use picomq.Metadata.Command.{MetadataResult}
use picomq.Metadata.State.{MetadataState}
use picomq.Metadata.State.Objects.{put_prepared, remove_prepared}
use picomq.Metadata.State.Kv.{put_kv}
use picomq.Metadata.Apply.Objects.{expired_keys, expire_prepared_objects}
use picomq.Metadata.Kept.{Kept, leased}
use picomq.Metadata.Kept.Only.{
  remove_prepared-Only, put_stream_set_object-Only, remove_stream_set_object-Only,
  insert_stream_object-Only, remove_stream_object-Only, mark_destroyed-Only, remove_destroyed-Only,
  remove_kv-Only,
}
use picomq.Metadata.Kept.Rest.{RestKept, WithIds, Kept_of_RestKept}

abbrev pub is_deadline : ℤ → Option ℤ → Bool
is_deadline d = map_or false (λ (e : ℤ). e == d)

-- The table of leases and its index by deadline agree, and the next id is free.
pub record LeasesAgree (next : ℕ) (prepared : OrdMap ℕ ℤ) (by_deadline : OrdMap (ℤ × ℕ) (Unit {0}))
    : Type 0 where
  pub fits : next < u64_mod
  pub agree : (d : ℤ) (i : ℕ) → contains_key (d, i) by_deadline ≡ is_deadline d (get i prepared)
  pub fresh : (i : ℕ) (d : ℤ) → get i prepared ≡ some d → i < next

abbrev pub IsLeased : MetadataState → Type 0
IsLeased s = LeasesAgree s.next_object_id s.prepared s.prepared_by_deadline

not_leased : (s : MetadataState) → IsLeased s → get s.next_object_id s.prepared ≡ none
not_leased s h = elim (Option-cases (get s.next_object_id s.prepared)) [
  | inl e ↦ e
  | inr (d, e) ↦ absurd (irrefl s.next_object_id (h.fresh s.next_object_id d e))
]
  where
    irrefl : (n : ℕ) → n < n → ⊥
    irrefl n h = omega (arith, h)

leased-IsLeased :
    (s : MetadataState) (deadline : ℤ)
    → s.next_object_id + 1 < u64_mod
    → IsLeased s
    → IsLeased (leased s deadline)
unfolding put_prepared
leased-IsLeased s deadline fits h =
    let next = s.next_object_id in
    record {
      fits = omega arith;
      agree = λ d i. ground (
        arith,
        get-insert (d, i) (deadline, next) tt s.prepared_by_deadline,
        get-insert i next deadline s.prepared,
        h.agree d i,
        not_leased s h,
        nat_ord.eq_of_cmp i next,
        nat_ord.cmp_refl next,
        int_ord.eq_of_cmp d deadline,
        int_ord.eq_of_cmp deadline d,
        int_ord.cmp_refl d,
      );
      fresh = λ i d e. ground (
        arith,
        get-insert i next deadline s.prepared,
        h.fresh i d,
        e,
        nat_ord.eq_of_cmp i next,
        fits,
      );
    }

-- The table without one lease.
pub get-remove_prepared :
    (s : MetadataState) (i j : ℕ)
    → get j (remove_prepared s i).prepared ≡ (if j == i then none else get j s.prepared)
unfolding remove_prepared
get-remove_prepared s i j = elim (Option-cases (get i s.prepared)) [
  | inl e ↦ rw (e, remove_prepared) (ground (arith, e, nat_ord.eq_of_cmp j i))
  | inr (d, e) ↦ rw (e, remove_prepared) (get-remove j i s.prepared)
]

remove_prepared-IsLeased : (s : MetadataState) (i : ℕ) → IsLeased s → IsLeased (remove_prepared s i)
unfolding remove_prepared
remove_prepared-IsLeased s i h = elim (Option-cases (get i s.prepared)) [
  | inl e ↦ rw (e, remove_prepared) h
  | inr (deadline, e) ↦
      rw (e, remove_prepared)
        (record {
          fits = h.fits;
          agree = λ d j. ground (
            arith,
            e,
            get-remove (d, j) (deadline, i) s.prepared_by_deadline,
            get-remove j i s.prepared,
            h.agree d j,
            nat_ord.eq_of_cmp j i,
            nat_ord.cmp_refl i,
            int_ord.eq_of_cmp d deadline,
            int_ord.eq_of_cmp deadline d,
            int_ord.cmp_refl d,
          );
          fresh = λ j d found. ground (arith, get-remove j i s.prepared, found, h.fresh j d);
        })
]

pub IsLeased-Kept : Kept (WithIds IsLeased)
unfolding put_kv
IsLeased-Kept =
    let Q = IsLeased in
    Kept_of_RestKept (record {
      rows = λ s t h. h;
      next = λ s n h. h;
      nodes = λ s m h. h;
      pending = λ s m h. h;
      epochs = λ s m h. h;
      producers = λ s n h. h;
      lease = leased-IsLeased;
      unprepare = remove_prepared-IsLeased;
      put_set = λ s row a b h. subst Q (sym (put_stream_set_object-Only s row)) h;
      remove_set = λ s i h. subst Q (sym (remove_stream_set_object-Only s i)) h;
      put_object = λ s o d n l a b h. subst Q (sym (insert_stream_object-Only s o d n l)) h;
      remove_object = λ s i h. subst Q (sym (remove_stream_object-Only s i)) h;
      mark = λ s i op h. subst Q (sym (mark_destroyed-Only s i op)) h;
      clean = λ s i h. subst Q (sym (remove_destroyed-Only s i)) h;
      store = λ s key value h. h;
      unstore = λ s key h. subst Q (sym (remove_kv-Only s key)) h;
    })
