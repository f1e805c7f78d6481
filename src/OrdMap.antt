-- ===== src/OrdMap.antt =====
-- `im::OrdMap` and `BTreeMap`: a finite map that is iterated in key order. A value holds its
-- entries and the proof that they are sorted, so the laws have no side condition.
pub mod Assoc
pub mod Refill
use picomq.Prelude.{
  ℕ, ◌+◌, ◌≤◌, ◌<◌, nat_ord, ◌≡◌, refl, Bool, ◌&&◌, Option, none, some, List, [], ◌∷◌, arith, Ord,
  ◌==◌, leb, map_or, is_some, if◌then◌else◌, keep_if, map, length, for_each, contains, Option-cases,
  inl, inr, All, map_option,
}
use Assoc.{
  Entries, IsSorted, lookup, put, delete, total, kept_by, put-IsSorted, delete-IsSorted, lookup-put,
  lookup-delete, total-put, total-delete, keep_if-IsSorted, lookup-keep_if, contains-keys, total-le,
  lookup-members,
}

pub record OrdMap {ℓ} (K V : Type ℓ) ⦃o : Ord K⦄ : Type ℓ where
  pub entries : Entries K V
  pub sorted : IsSorted entries

module _ {ℓ} {K V : Type ℓ} ⦃o : Ord K⦄ where
  unfoldable pub empty : OrdMap K V
  empty = record { entries = []; sorted = tt }

  unfoldable pub get : K → OrdMap K V → Option V
  unfolding lookup
  get k m = lookup k m.entries

  unfoldable pub insert : K → V → OrdMap K V → OrdMap K V
  unfolding put
  insert k v m = record {
    entries = put k v m.entries;
    sorted = put-IsSorted k v m.entries m.sorted;
  }

  unfoldable pub remove : K → OrdMap K V → OrdMap K V
  unfolding delete
  remove k m = record {
    entries = delete k m.entries;
    sorted = delete-IsSorted k m.entries m.sorted;
  }

  abbrev pub contains_key : K → OrdMap K V → Bool
  contains_key k m = is_some (get k m)

  abbrev pub update_at : K → (V → V) → OrdMap K V → Option V → OrdMap K V
  update_at k f m none = m
  update_at k f m (some v) = insert k (f v) m

  -- `get_mut` followed by a write through the reference.
  abbrev pub update : K → (V → V) → OrdMap K V → OrdMap K V
  update k f m = update_at k f m (get k m)

  unfoldable pub retain : (K × V → Bool) → OrdMap K V → OrdMap K V
  retain p m = record {
    entries = keep_if p m.entries;
    sorted = keep_if-IsSorted p m.entries m.sorted;
  }

  unfoldable pub len : OrdMap K V → ℕ
  len m = length m.entries

  unfoldable pub iter : OrdMap K V → List (K × V)
  iter m = m.entries

  -- The entries that pass a test, in key order.
  unfoldable pub scan : (K × V → Bool) → OrdMap K V → List (K × V)
  scan p m = keep_if p m.entries

  abbrev pub within : K → K → K × V → Bool
  within lo hi e = leb lo e.0 && leb e.0 hi

  -- `range(lo..=hi)`
  abbrev pub range : K → K → OrdMap K V → List (K × V)
  range lo hi = scan (within lo hi)

  abbrev pub keys_of : List (K × V) → List K
  keys_of = map (λ (e : K × V). e.0)

  -- The sums of a weight over the entries and over the values.
  unfoldable pub sum_by : (K → V → ℕ) → OrdMap K V → ℕ
  unfolding total
  sum_by w m = total w m.entries

  abbrev pub sum : (V → ℕ) → OrdMap K V → ℕ
  sum w = sum_by (λ k. w)

  pub get-empty : (k : K) → get k empty ≡ none
  unfolding get empty
  get-empty k = refl

  pub get-insert :
      (j k : K) (v : V) (m : OrdMap K V)
      → get j (insert k v m) ≡ (if j == k then some v else get j m)
  unfolding get insert
  get-insert j k v m = lookup-put j k v m.entries

  pub get-remove :
      (j k : K) (m : OrdMap K V) → get j (remove k m) ≡ (if j == k then none else get j m)
  unfolding get remove
  get-remove j k m = lookup-delete j k m.entries m.sorted

  pub get-retain :
      (p : K × V → Bool) (k : K) (m : OrdMap K V) → get k (retain p m) ≡ kept_by p k (get k m)
  unfolding get retain
  get-retain p k m = lookup-keep_if p k m.entries m.sorted

  -- A key that is not there may as well be removed.
  pub get_of_absent :
      (j k : K) (m : OrdMap K V) → get k m ≡ none → get j m ≡ (if j == k then none else get j m)
  get_of_absent j k m e = ground (arith, e, o.eq_of_cmp j k)

  pub get-update :
      (j k : K) (f : V → V) (m : OrdMap K V)
      → get j (update k f m) ≡ (if j == k then map_option f (get j m) else get j m)
  get-update j k f m = elim (Option-cases (get k m)) [
    | inl e ↦ rw e (ground (arith, e, o.eq_of_cmp j k))
    | inr (v, e) ↦ rw e (ground (arith, e, o.eq_of_cmp j k, get-insert j k (f v) m))
  ]

  pub sum_by-insert :
      (w : K → V → ℕ) (k : K) (v : V) (m : OrdMap K V)
      → sum_by w (insert k v m) + map_or 0 (w k) (get k m) ≡ sum_by w m + w k v
  unfolding sum_by insert get
  sum_by-insert w k v m = total-put w k v m.entries m.sorted

  pub sum_by-remove :
      (w : K → V → ℕ) (k : K) (m : OrdMap K V)
      → sum_by w (remove k m) + map_or 0 (w k) (get k m) ≡ sum_by w m
  unfolding sum_by remove get
  sum_by-remove w k m = total-delete w k m.entries

  pub sum-insert :
      (w : V → ℕ) (k : K) (v : V) (m : OrdMap K V)
      → sum w (insert k v m) + map_or 0 w (get k m) ≡ sum w m + w v
  sum-insert w = sum_by-insert (λ k. w)

  pub len-sum : (m : OrdMap K V) → len m ≡ sum (λ v. 1) m
  unfolding len sum_by total
  len-sum m = count m.entries
    where
      count : (es : Entries K V) → length es ≡ total (λ k v. 1) es
      count [] = refl
      count (e ∷ es) = ground (arith, count es)

  pub sum-remove :
      (w : V → ℕ) (k : K) (m : OrdMap K V) → sum w (remove k m) + map_or 0 w (get k m) ≡ sum w m
  sum-remove w = sum_by-remove (λ k. w)

  -- A scan holds the entries of the map that pass the test.
  pub lookup-scan :
      (p : K × V → Bool) (k : K) (m : OrdMap K V) → lookup k (scan p m) ≡ kept_by p k (get k m)
  unfolding scan get
  lookup-scan p k m = lookup-keep_if p k m.entries m.sorted

  pub contains-keys_of-scan :
      (p : K × V → Bool) (k : K) (m : OrdMap K V)
      → contains k (keys_of (scan p m)) ≡ is_some (kept_by p k (get k m))
  contains-keys_of-scan p k m = rw contains-keys (rw lookup-scan)

  pub get-members : (m : OrdMap K V) → All (λ (e : K × V). get e.0 m ≡ some e.1) (iter m)
  unfolding get iter
  get-members m = lookup-members _ m.entries m.sorted (λ k v e. e)

  -- A loop that removes a list of keys.
  abbrev pub remove_all : List K → OrdMap K V → OrdMap K V
  remove_all ks m = for_each (λ n k. remove k n) m ks

  pub get-remove_all :
      (j : K) (ks : List K) (m : OrdMap K V)
      → get j (remove_all ks m) ≡ (if contains j ks then none else get j m)
  get-remove_all j [] m = refl
  get-remove_all j (k ∷ ks) m = ground (arith, get-remove_all j ks (remove k m), get-remove j k m)

-- A map with keys below a bound whose values weigh at most one each.
pub sum-le :
    {V : Type 0} (w : V → ℕ) (bound : ℕ) (m : OrdMap ℕ V)
    → ((v : V) → w v ≤ 1)
    → ((k : ℕ) (v : V) → get k m ≡ some v → k < bound)
    → sum w m ≤ bound
unfolding sum_by get
sum-le w bound m light h = total-le (λ k. w) bound m.entries (λ k. light) h m.sorted
