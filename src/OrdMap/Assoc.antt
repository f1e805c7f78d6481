-- ===== src/OrdMap/Assoc.antt =====
-- Sorted association lists: the entries of a map in key order, and how each operation acts.
use Prim.Native.Nat.Ordering.{lt, eq, gt}
use picomq.Prelude.{
  ℕ, suc, ◌+◌, ◌≤◌, ◌<◌, ◌≡◌, refl, nat_ord, Option, none, some, List, [], ◌∷◌, arith, Ord, ◌==◌,
  map_or, if◌then◌else◌, Bool-cases, Ordering-cases, inl, inr, Bool, keep_if, contains, map,
  is_some, All,
}

abbrev pub Entries {ℓ} : Type ℓ → Type ℓ → Type ℓ
Entries K V = List (K × V)

module _ {ℓ} {K V : Type ℓ} ⦃o : Ord K⦄ where
  -- The first key, if there is one, is above `k`.
  abbrev pub IsBelow : K → Entries K V → Type 0
  IsBelow k [] = Unit
  IsBelow k ((j, v) ∷ m) = o.cmp k j ≡ lt

  abbrev pub IsSorted : Entries K V → Type 0
  IsSorted [] = Unit
  IsSorted ((k, v) ∷ m) = IsBelow k m × IsSorted m

  unfoldable pub lookup : K → Entries K V → Option V
  lookup k [] = none
  lookup k ((j, v) ∷ m) = if k == j then some v else lookup k m

  unfoldable pub put : K → V → Entries K V → Entries K V
  put k v [] = (k, v) ∷ []
  put k v ((j, w) ∷ m) =
      let rest = put k v m in
      elim (o.cmp k j) [ lt ↦ (k, v) ∷ (j, w) ∷ m | eq ↦ (k, v) ∷ m | gt ↦ (j, w) ∷ rest ]

  unfoldable pub delete : K → Entries K V → Entries K V
  delete k [] = []
  delete k ((j, w) ∷ m) = let rest = delete k m in if k == j then m else (j, w) ∷ rest

  IsBelow-put :
      (i k : K) (v : V) (m : Entries K V) → o.cmp i k ≡ lt → IsBelow i m → IsBelow i (put k v m)
  unfolding put
  IsBelow-put i k v [] h b = h
  IsBelow-put i k v ((j, w) ∷ m) h b = ground arith

  pub put-IsSorted : (k : K) (v : V) (m : Entries K V) → IsSorted m → IsSorted (put k v m)
  unfolding put
  put-IsSorted k v [] s = (tt, tt)
  put-IsSorted k v ((j, w) ∷ m) s = elim (Ordering-cases (o.cmp k j)) [
    | inl e ↦ rw (e, put) (e, s)
    | inr (inl e) ↦ rw (e, put) (rw (o.eq_of_cmp k j e) s)
    | inr (inr e) ↦ rw (e, put) (IsBelow-put j k v m (o.lt_of_gt k j e) s.0, put-IsSorted k v m s.1)
  ]

  IsBelow-trans : (i k : K) (m : Entries K V) → o.cmp i k ≡ lt → IsBelow k m → IsBelow i m
  IsBelow-trans i k [] h b = tt
  IsBelow-trans i k ((j, w) ∷ m) h b = o.lt_trans i k j h b

  IsBelow-delete : (i k : K) (m : Entries K V) → IsSorted m → IsBelow i m → IsBelow i (delete k m)
  unfolding delete
  IsBelow-delete i k [] s b = tt
  IsBelow-delete i k ((j, w) ∷ m) s b = ground (arith, IsBelow-trans i j m b s.0)

  pub delete-IsSorted : (k : K) (m : Entries K V) → IsSorted m → IsSorted (delete k m)
  unfolding delete
  delete-IsSorted k [] s = tt
  delete-IsSorted k ((j, w) ∷ m) s = elim (Bool-cases (k == j)) [
    | inl e ↦ rw (e, delete) s.1
    | inr e ↦ rw (e, delete) (IsBelow-delete j k m s.1 s.0, delete-IsSorted k m s.1)
  ]

  -- A key below every entry is in none.
  pub lookup_of_IsBelow : (k : K) (m : Entries K V) → IsSorted m → IsBelow k m → lookup k m ≡ none
  unfolding lookup
  lookup_of_IsBelow k [] s b = refl
  lookup_of_IsBelow k ((j, w) ∷ m) s b =
      ground (arith, lookup_of_IsBelow k m s.1 (IsBelow-trans k j m b s.0))

  pub lookup-put :
      (j k : K) (v : V) (m : Entries K V)
      → lookup j (put k v m) ≡ (if j == k then some v else lookup j m)
  unfolding lookup put
  lookup-put j k v [] = refl
  lookup-put j k v ((i, w) ∷ m) =
      ground
        (arith, o.eq_of_cmp k i, o.eq_of_cmp j i, o.eq_of_cmp j k, o.cmp_refl k, lookup-put j k v m)

  pub lookup-delete :
      (j k : K) (m : Entries K V)
      → IsSorted m
      → lookup j (delete k m) ≡ (if j == k then none else lookup j m)
  unfolding lookup delete
  lookup-delete j k [] s = ground arith
  lookup-delete j k ((i, w) ∷ m) s = ground (
    arith,
    o.eq_of_cmp k i,
    o.eq_of_cmp j i,
    o.eq_of_cmp j k,
    o.cmp_refl k,
    lookup-delete j k m s.1,
    lookup_of_IsBelow i m s.1 s.0,
  )

  -- A sum over the entries.
  unfoldable pub total : (K → V → ℕ) → Entries K V → ℕ
  total w [] = 0
  total w ((k, v) ∷ m) = w k v + total w m

  pub total-put :
      (w : K → V → ℕ) (k : K) (v : V) (m : Entries K V)
      → IsSorted m
      → total w (put k v m) + map_or 0 (w k) (lookup k m) ≡ total w m + w k v
  unfolding total put lookup
  total-put w k v [] s = omega arith
  total-put w k v ((j, u) ∷ m) s = ground (
    arith,
    total-put w k v m s.1,
    lookup_of_IsBelow k m s.1,
    IsBelow-trans k j m,
    o.cmp_refl k,
    o.eq_of_cmp k j,
  )

  pub total-delete :
      (w : K → V → ℕ) (k : K) (m : Entries K V)
      → total w (delete k m) + map_or 0 (w k) (lookup k m) ≡ total w m
  unfolding total delete lookup
  total-delete w k [] = omega arith
  total-delete w k ((j, u) ∷ m) = ground (arith, total-delete w k m, o.eq_of_cmp k j)

module _ {ℓ} {K V : Type ℓ} ⦃o : Ord K⦄ where
  -- What is left of an entry that a scan filters.
  abbrev pub kept_by : (K × V → Bool) → K → Option V → Option V
  kept_by p k none = none
  kept_by p k (some v) = if p (k, v) then some v else none

  IsBelow-keep_if :
      (i : K) (p : K × V → Bool) (m : Entries K V)
      → IsSorted m
      → IsBelow i m
      → IsBelow i (keep_if p m)
  IsBelow-keep_if i p [] s b = tt
  IsBelow-keep_if i p ((j, w) ∷ m) s b = elim (Bool-cases (p (j, w))) [
    | inl e ↦ rw e b
    | inr e ↦ rw e (IsBelow-keep_if i p m s.1 (IsBelow-trans i j m b s.0))
  ]

  pub keep_if-IsSorted : (p : K × V → Bool) (m : Entries K V) → IsSorted m → IsSorted (keep_if p m)
  keep_if-IsSorted p [] s = tt
  keep_if-IsSorted p ((j, w) ∷ m) s = elim (Bool-cases (p (j, w))) [
    | inl e ↦ rw e (IsBelow-keep_if j p m s.1 s.0, keep_if-IsSorted p m s.1)
    | inr e ↦ rw e (keep_if-IsSorted p m s.1)
  ]

  pub lookup-keep_if :
      (p : K × V → Bool) (k : K) (m : Entries K V)
      → IsSorted m
      → lookup k (keep_if p m) ≡ kept_by p k (lookup k m)
  unfolding lookup
  lookup-keep_if p k [] s = refl
  lookup-keep_if p k ((j, w) ∷ m) s = ground (
    arith,
    o.eq_of_cmp k j,
    o.cmp_refl k,
    lookup-keep_if p k m s.1,
    lookup_of_IsBelow j m s.1 s.0,
  )

  -- The keys of a scan are those at which its lookup finds something.
  pub contains-keys :
      (k : K) (m : Entries K V) → contains k (map (λ (e : K × V). e.0) m) ≡ is_some (lookup k m)
  unfolding lookup
  contains-keys k [] = refl
  contains-keys k ((j, w) ∷ m) = ground (arith, contains-keys k m)

  -- Every entry is found under its key.
  pub lookup-members {κ} :
      (P : K × V → Type κ) (m : Entries K V)
      → IsSorted m
      → ((k : K) (v : V) → lookup k m ≡ some v → P (k, v))
      → All P m
  unfolding lookup
  lookup-members P [] s h = tt
  lookup-members P ((j, w) ∷ m) s h = (
    h j w (ground (arith, o.cmp_refl j)),
    lookup-members P m s.1
        (λ k v e. h k v (ground (arith, e, lookup_of_IsBelow j m s.1 s.0, o.eq_of_cmp k j))),
  )

-- Entries whose keys are numbers below a bound, and that weigh at most one each.
abbrev IsFrom {ℓ} : {V : Type ℓ} → ℕ → List (ℕ × V) → Type 0
IsFrom lo [] = Unit
IsFrom lo ((j, v) ∷ m) = lo ≤ j

IsFrom-above : {V : Type 0} (j : ℕ) (m : Entries ℕ V) → IsBelow j m → IsFrom (suc j) m
IsFrom-above j [] b = tt
IsFrom-above j ((i, v) ∷ m) b = ground arith

total-le_from :
    {V : Type 0} (w : ℕ → V → ℕ) (bound lo : ℕ) (m : Entries ℕ V)
    → ((k : ℕ) (v : V) → w k v ≤ 1)
    → ((k : ℕ) (v : V) → lookup k m ≡ some v → k < bound)
    → IsSorted m
    → IsFrom lo m
    → lo ≤ bound
    → total w m + lo ≤ bound
unfolding total lookup
total-le_from w bound lo [] light h s f le = omega (arith, le)
total-le_from w bound lo ((j, v) ∷ m) light h s f le =
    let first : j < bound = h j v (ground (arith, nat_ord.cmp_refl j)) in
    let rest =
      total-le_from w bound (suc j) m light
        (λ k u e. h k u (ground (arith, lookup_of_IsBelow j m s.1 s.0, nat_ord.eq_of_cmp k j))) s.1
        (IsFrom-above j m s.0) first in
    omega (arith, light j v)

IsFrom-zero : {V : Type 0} (m : Entries ℕ V) → IsFrom 0 m
IsFrom-zero [] = tt
IsFrom-zero ((j, v) ∷ m) = omega arith

pub total-le :
    {V : Type 0} (w : ℕ → V → ℕ) (bound : ℕ) (m : Entries ℕ V)
    → ((k : ℕ) (v : V) → w k v ≤ 1)
    → ((k : ℕ) (v : V) → lookup k m ≡ some v → k < bound)
    → IsSorted m
    → total w m ≤ bound
total-le w bound m light h s =
    let le = total-le_from w bound 0 m light h s (IsFrom-zero m) (omega arith) in omega (arith, le)
