-- ===== src/Metadata/Leases/Effects.antt =====
-- What leasing and expiring do to the table of leases.
use picomq.Prelude.{
  ℕ, zero, suc, ◌+◌, ◌-◌, ◌<◌, ◌≡◌, refl, ◌∙◌, ap, Bool, true, false, ◌&&◌, Option, none, some,
  List, [], ◌∷◌, arith, nat_ord, int_ord, pair_ord, ◌==◌, leb, ltb, ℤ, pos, u64_mod, u64_max,
  add_u64, add_i64, max_ℤ, map, map_or, if◌then◌else◌, contains, for_each, Bool-cases, inl, inr,
  range_from,
}
use picomq.OrdMap.{get, contains_key, get-insert, contains-keys_of-scan}
use picomq.Metadata.Error.{ok, ◌>>◌}
use picomq.Metadata.Command.{MetadataResult, id}
use picomq.Metadata.State.{MetadataState}
use picomq.Metadata.State.Objects.{put_prepared, remove_prepared}
use picomq.Metadata.Apply.Objects.{expired_keys, expire_prepared_objects, prepare_object}
use picomq.Metadata.Leases.{IsLeased, get-remove_prepared}

abbrev second : ℤ × ℕ → ℕ
second key = key.1

contains-second :
    (d : ℤ) (j : ℕ) (keys : List (ℤ × ℕ))
    → contains (d, j) keys ≡ true
    → contains j (map second keys) ≡ true
contains-second d j [] h = h
contains-second d j ((e, i) ∷ keys) h = ground (arith, contains-second d j keys)

second-contains :
    (j : ℕ) (keys : List (ℤ × ℕ))
    → contains j (map second keys) ≡ true
    → (d : ℤ) × (contains (d, j) keys ≡ true)
second-contains j [] h = cc
second-contains j ((e, i) ∷ keys) h = elim (Bool-cases (j == i)) [
  | inl same ↦ (e, ground (arith, same, int_ord.cmp_refl e))
  | inr other ↦
      let (d, found) = second-contains j keys (ground (arith, h, other)) in
      (d, ground (arith, found))
]

-- Removing the leases of a list of keys.
get-remove_leases :
    (j : ℕ) (s : MetadataState) (keys : List (ℤ × ℕ))
    → get j (for_each (λ t (key : ℤ × ℕ). remove_prepared t key.1) s keys).prepared
      ≡ (if contains j (map second keys) then none else get j s.prepared)
get-remove_leases j s [] = refl
get-remove_leases j s ((d, i) ∷ keys) =
    ground (arith, get-remove_leases j (remove_prepared s i) keys, get-remove_prepared s i j)

-- A lease that has run out.
abbrev pub overdue : ℤ → Option ℤ → Bool
overdue now_ms = map_or false (λ (d : ℤ). leb d now_ms)

abbrev due : ℤ → (ℤ × ℕ) × Unit {0} → Bool
due now_ms e = leb e.0 (now_ms, u64_max)

contains-expired_keys :
    (s : MetadataState) (now_ms d : ℤ) (j : ℕ)
    → contains (d, j) (expired_keys s now_ms)
      ≡ (contains_key (d, j) s.prepared_by_deadline && due now_ms ((d, j), tt))
unfolding expired_keys
contains-expired_keys s now_ms d j =
    ground (arith, contains-keys_of-scan (due now_ms) (d, j) s.prepared_by_deadline)

-- The due keys are those of the leases that have run out.
is_due :
    (s : MetadataState) (now_ms : ℤ) (j : ℕ)
    → IsLeased s
    → contains j (map second (expired_keys s now_ms)) ≡ overdue now_ms (get j s.prepared)
is_due s now_ms j h = go (get j s.prepared) refl _ refl
  where
    go :
        (o : Option ℤ)
        → get j s.prepared ≡ o
        → (b : Bool) → contains j (map second (expired_keys s now_ms)) ≡ b
        → b ≡ overdue now_ms o
    go none e false c = refl
    go none e true c =
        let (d, found) = second-contains j (expired_keys s now_ms) c in
        ground (arith, found, contains-expired_keys s now_ms d j, h.agree d j, e)
    go (some d) e true c =
        let (d', found) = second-contains j (expired_keys s now_ms) c in
        ground (
          arith,
          found,
          contains-expired_keys s now_ms d' j,
          h.agree d' j,
          e,
          int_ord.eq_of_cmp d d',
        )
    go (some d) e false c = ground (
      arith,
      c,
      contains-second d j (expired_keys s now_ms),
      contains-expired_keys s now_ms d j,
      h.agree d j,
      e,
      int_ord.cmp_refl d,
      h.fresh j d,
      h.fits,
      int_ord.eq_of_cmp d now_ms,
    )

-- Where the leases and their index agree, expiry succeeds and ends exactly the leases whose
-- deadline is at or before the given time.
pub expire-removes :
    (s : MetadataState) (now_ms : ℤ)
    → IsLeased s
    → (t : MetadataState) × (c : ℕ) × (expire_prepared_objects s now_ms
        ≡ ok (t, MetadataResult.count c))
      × ((j : ℕ)
          → get j t.prepared
            ≡ (if overdue now_ms (get j s.prepared) then none else get j s.prepared))
unfolding expire_prepared_objects
expire-removes s now_ms h = (
  _,
  _,
  refl,
  λ j.
      get-remove_leases j s (expired_keys s now_ms)
      ∙ ap (λ b. if b then none else get j s.prepared) (is_due s now_ms j h),
)

-- Leasing a run of ids.
get-put_leases :
    (j : ℕ) (deadline : ℤ) (first n : ℕ) (s : MetadataState)
    → get j (for_each (λ t i. put_prepared t i deadline) s (range_from first n)).prepared
      ≡ (if leb first j && ltb j (first + n) then some deadline else get j s.prepared)
unfolding put_prepared
get-put_leases j deadline first zero s = ground arith
get-put_leases j deadline first (suc n) s = ground (
  arith,
  get-put_leases j deadline (suc first) n (put_prepared s first deadline),
  get-insert j first deadline s.prepared,
)

next-put_leases :
    (deadline : ℤ) (first n : ℕ) (s : MetadataState)
    → (for_each (λ t i. put_prepared t i deadline) s (range_from first n)).next_object_id
      ≡ s.next_object_id
unfolding put_prepared
next-put_leases deadline first zero s = refl
next-put_leases deadline first (suc n) s =
    next-put_leases deadline (suc first) n (put_prepared s first deadline)

-- A run of ids that does not wrap is as long as asked.
run-length : (first count : ℕ) → first + count < u64_mod → add_u64 first count - first ≡ count
run-length first count h = omega arith

run-end : (first count : ℕ) → first + count < u64_mod → add_u64 first count ≡ first + count
run-end first count h = omega arith

-- A lease of one or more ids that do not run past 2^64 succeeds with the next id: it gives out as
-- many ids from there, each with the deadline, leaves the other leases, and moves the next id past
-- them.
pub prepare-leases :
    (s : MetadataState) (count : ℕ) (ttl_ms now_ms : ℤ)
    → (count == 0) ≡ false
    → s.next_object_id + count < u64_mod
    → (t : MetadataState) × (prepare_object s count ttl_ms now_ms ≡ ok (t, id s.next_object_id))
      × (t.next_object_id ≡ s.next_object_id + count)
      × ((j : ℕ)
          → get j t.prepared ≡ (
              if leb s.next_object_id j && ltb j (s.next_object_id + count)
              then some (add_i64 now_ms (max_ℤ ttl_ms (pos 0)))
              else get j s.prepared))
unfolding prepare_object ◌>>◌
prepare-leases s count ttl_ms now_ms nonzero fits =
    let first = s.next_object_id in
    let deadline = add_i64 now_ms (max_ℤ ttl_ms (pos 0)) in
    let s₁ = record s { next_object_id = add_u64 first count } in
    (
      for_each (λ t i. put_prepared t i deadline) s₁ (range_from first count),
      rw (nonzero, run-length first count fits) refl,
      next-put_leases deadline first count s₁ ∙ run-end first count fits,
      λ j. get-put_leases j deadline first count s₁,
    )
