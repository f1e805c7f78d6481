-- ===== src/Metadata/Kept/Objects/Lease.antt =====
-- `prepare_object` leases one id so many times, and keeps an invariant.
use mathlib.Core.Path.{subst}
use picomq.Prelude.{
  ℕ, zero, suc, ◌+◌, ◌-◌, ◌<◌, ◌≡◌, refl, sym, ◌∙◌, ap, arith, int_ord, ℤ, pos, max_ℤ, add_i64,
  u64_mod, for_each, range_from, add_u64,
}
use picomq.Metadata.State.{MetadataState}
use picomq.Metadata.State.Objects.{put_prepared}
use picomq.Metadata.Error.Ensures.{Ensures, Ensures-ok, Ensures-fail_if}
use picomq.Metadata.Apply.Objects.{prepare_object}
use picomq.Metadata.Kept.{Kept, leased}
use picomq.Metadata.Kept.Nodes.{After}

abbrev with_next : MetadataState → ℕ → MetadataState
with_next s n = record s { next_object_id = n }

abbrev prepare_at : ℤ → MetadataState → ℕ → MetadataState
prepare_at deadline t object_id = put_prepared t object_id deadline

-- Leases of one id each, with one deadline.
lease_many : MetadataState → ℤ → ℕ → MetadataState
lease_many s deadline zero = s
lease_many s deadline (suc n) = lease_many (leased s deadline) deadline n

next-leased :
    (s : MetadataState) (d : ℤ)
    → s.next_object_id + 1 < u64_mod
    → (leased s d).next_object_id ≡ suc s.next_object_id
unfolding put_prepared
next-leased s d h = omega arith

prepares-eq-many :
    (s : MetadataState) (d : ℤ) (m n : ℕ)
    → s.next_object_id ≡ m
    → m + n < u64_mod
    → for_each (prepare_at d) (with_next s (m + n)) (range_from m n) ≡ lease_many s d n
unfolding lease_many put_prepared
prepares-eq-many s d m zero e h =
    let p : m + 0 ≡ s.next_object_id = omega arith in ap (with_next s) p
prepares-eq-many s d m (suc n) e h =
    let rest = range_from (suc m) n in
    let k : m + suc n ≡ suc m + n = omega arith in
    let e' : (leased s d).next_object_id ≡ suc m = next-leased s d (omega arith) ∙ ap suc e in
    ap (λ (i : ℕ). for_each (prepare_at d) (put_prepared (with_next s (m + suc n)) i d) rest)
      (sym e)
    ∙ ap (λ (j : ℕ). for_each (prepare_at d) (with_next (leased s d) j) rest) k
    ∙ prepares-eq-many (leased s d) d (suc m) n e' (omega arith)

add_u64-sub : (a n : ℕ) → a + n < u64_mod → add_u64 a n - a ≡ n
add_u64-sub a n h = omega arith

add_u64_fits : (a n : ℕ) → a + n < u64_mod → add_u64 a n ≡ a + n
add_u64_fits a n h = omega arith

module _ {P : MetadataState → Type 0} (K : Kept P) where
  lease_many-keeps :
      (s : MetadataState) (d : ℤ) (m n : ℕ)
      → s.next_object_id ≡ m
      → m + n < u64_mod
      → P s
      → P (lease_many s d n)
  unfolding lease_many
  lease_many-keeps s d m zero e fits h = h
  lease_many-keeps s d m (suc n) e fits h =
      lease_many-keeps (leased s d) d (suc m) n (next-leased s d (omega arith) ∙ ap suc e)
        (omega arith) (K.lease s d (omega arith) h)

  pub prepare_object-keeps :
      (s : MetadataState) (count : ℕ) (ttl_ms now_ms : ℤ)
      → s.next_object_id + count < u64_mod
      → P s
      → Ensures (After P) (prepare_object s count ttl_ms now_ms)
  unfolding prepare_object
  prepare_object-keeps s count ttl_ms now_ms fits h =
      let d = add_i64 now_ms (max_ℤ ttl_ms (pos 0)) in
      let next = s.next_object_id in
      Ensures-fail_if _ _ _ λ _. Ensures-ok (
        rw (add_u64-sub next count fits, add_u64_fits next count fits)
          (subst P (sym (prepares-eq-many s d next count refl fits))
            (lease_many-keeps s d next count refl fits h)))
