-- ===== src/Metadata/KvEffects.antt =====
-- picomq/pico-metadata/src/apply.rs: what the conditional key-value commands write.
use picomq.Prelude.{
  ℕ, ◌≡◌, sym, ap, ◌∙◌, Bool, true, false, not, ◌&&◌, Option, none, some, arith, bytes_ord, ◌==◌,
  if◌then◌else◌, map_or, is_some, Option-cases, Bool-cases, inl, inr,
}
use picomq.OrdMap.{get, get-insert, get-remove}
use picomq.Metadata.Error.{ok, ◌>>◌}
use picomq.Metadata.Command
use picomq.Metadata.Command.{Text, Bytes, Proposer, MetadataResult, value, proposer}
use picomq.Metadata.State.{MetadataState}
use picomq.Metadata.State.Kv as Table
use picomq.Metadata.Query.{get_kv, is_live}
use picomq.Metadata.Apply.{apply, apply_inner, dispatch}
use picomq.Metadata.Apply.Kv.{put_kv_if_absent, put_kv_if_matches, delete_kv_if_matches}
use picomq.Metadata.Registration.{live_check}

-- The key holds the expected value.
abbrev pub holds : Bytes → Option Bytes → Bool
holds expected = map_or false (λ (current : Bytes). current == expected)

get-table_remove :
    (s : MetadataState) (key j : Text)
    → get j (Table.remove_kv s key).0.kv ≡ (if j == key then none else get j s.kv)
unfolding Table.remove_kv
get-table_remove s key j = elim (Option-cases (get key s.kv)) [
  | inl e ↦ rw (e, Table.remove_kv) (ground (arith, e, bytes_ord.eq_of_cmp j key))
  | inr (old, e) ↦ rw (e, Table.remove_kv) (get-remove j key s.kv)
]

module _ (noop : ℕ) (s : MetadataState) (p : Proposer) (live : is_live s p ≡ true)
    (key j : Text) where
  -- After a conditional put of a live proposer the key holds the new value where it held the
  -- expected one, and every key is as before otherwise.
  pub put_if_matches-reads :
      (expected v : Bytes)
      → get_kv (apply noop s (Command.put_kv_if_matches p key expected v)).0 j
        ≡ (if j == key && holds expected (get_kv s key) then some v else get_kv s j)
  unfolding get_kv apply apply_inner proposer dispatch put_kv_if_matches ◌>>◌ Table.put_kv
  put_if_matches-reads expected v = rw (live_check s p live) (elim (Option-cases (get key s.kv)) [
    | inl e ↦ rw (e, put_kv_if_matches) (ground arith)
    | inr (current, e) ↦ elim (Bool-cases (current == expected)) [
      | inl same ↦ rw (e, put_kv_if_matches) (rw same (ground (arith, get-insert j key v s.kv)))
      | inr other ↦ rw (e, put_kv_if_matches) (rw other (ground arith))
    ]
  ])

  -- After a conditional delete of a live proposer the key is gone where it held the expected value,
  -- and every key is as before otherwise.
  pub delete_if_matches-reads :
      (expected : Bytes)
      → get_kv (apply noop s (Command.delete_kv_if_matches p key expected)).0 j
        ≡ (if j == key && holds expected (get_kv s key) then none else get_kv s j)
  unfolding get_kv apply apply_inner proposer dispatch delete_kv_if_matches ◌>>◌
  delete_if_matches-reads expected = rw (live_check s p live) (elim (Option-cases (get key s.kv)) [
    | inl e ↦ rw (e, delete_kv_if_matches) (ground arith)
    | inr (current, e) ↦ elim (Bool-cases (current == expected)) [
      | inl same ↦ rw (e, delete_kv_if_matches) (rw same (ground (arith, get-table_remove s key j)))
      | inr other ↦ rw (e, delete_kv_if_matches) (rw other (ground arith))
    ]
  ])

  -- After a put-if-absent of a live proposer the key holds what it held before, or else the new
  -- value, every other key is as before, and the result is what the key now holds.
  pub put_if_absent-reads :
      (v : Bytes)
      → let now = apply noop s (Command.put_kv_if_absent p key v) in
        (get_kv now.0 j ≡ (if j == key && not (is_some (get_kv s key)) then some v else get_kv s j))
        × (now.1 ≡ ok (value (get_kv now.0 key)))
  unfolding get_kv apply apply_inner proposer dispatch put_kv_if_absent ◌>>◌ Table.put_kv
  put_if_absent-reads v = rw (live_check s p live) (elim (Option-cases (get key s.kv)) [
    | inl e ↦
        rw (e, put_kv_if_absent)
          (
            ground (arith, get-insert j key v s.kv),
            ap (λ o. ok (value o)) (sym (get-insert key key v s.kv ∙ key-eq)),
          )
    | inr (current, e) ↦ rw (e, put_kv_if_absent) (ground arith, ap (λ o. ok (value o)) (sym e))
  ])
    where
      key-eq : (if key == key then some v else get key s.kv) ≡ some v
      key-eq = ground (arith, bytes_ord.cmp_refl key)
