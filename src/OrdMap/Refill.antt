-- ===== src/OrdMap/Refill.antt =====
-- A map is filled again from its entries in order, as a decoder does.
use Prim.Native.Nat.{Ordering}
use Prim.Native.Nat.Ordering.{lt}
use mathlib.Core.HLevel.{is_prop→PathP}
use mathlib.Core.List.{append_assoc, append-nil}
use picomq.Prelude.{◌≡◌, refl, sym, List, [], ◌∷◌, ◌++◌, Ord, for_each, ap}
use picomq.OrdMap.{OrdMap, empty, insert, iter}
use picomq.OrdMap.Assoc.{Entries, IsBelow, IsSorted, put}

eq_lt-IsProp : (a b : Ordering) → IsProp (a ≡ b)
eq_lt-IsProp a b = hlevel

module _ {ℓ} {K V : Type ℓ} ⦃o : Ord K⦄ where
  IsBelow-IsProp : (i : K) (m : Entries K V) → IsProp (IsBelow i m)
  IsBelow-IsProp i [] = hlevel
  IsBelow-IsProp i ((k, v) ∷ m) = eq_lt-IsProp (o.cmp i k) lt

  IsSorted-IsProp : (m : Entries K V) → IsProp (IsSorted m)
  IsSorted-IsProp [] = hlevel
  IsSorted-IsProp ((k, v) ∷ m) =
      λ a b i. (IsBelow-IsProp k m a.0 b.0 i, IsSorted-IsProp m a.1 b.1 i)

  -- Maps of the same entries are the same.
  pub map_ext : (m n : OrdMap K V) → m.entries ≡ n.entries → m ≡ n
  map_ext m n e = λ i. record {
    entries = e i;
    sorted = is_prop→PathP (λ j. IsSorted (e j)) (λ j. IsSorted-IsProp (e j)) m.sorted n.sorted i;
  }

  IsBelow-trans : (i k : K) (m : Entries K V) → o.cmp i k ≡ lt → IsBelow k m → IsBelow i m
  IsBelow-trans i k [] h b = tt
  IsBelow-trans i k ((j, v) ∷ m) h b = o.lt_trans i k j h b

  -- The keys before one of a sorted list are below it.
  below-later :
      (j : K) (ds : Entries K V) (k : K) (v : V) (es : Entries K V)
      → IsBelow j (ds ++ ((k, v) ∷ es))
      → IsSorted (ds ++ ((k, v) ∷ es))
      → o.cmp j k ≡ lt
  below-later j [] k v es b s = b
  below-later j ((i, w) ∷ ds) k v es b s = o.lt_trans j i k b (below-later i ds k v es s.0 s.1)

  put-last :
      (done : Entries K V) (k : K) (v : V) (es : Entries K V)
      → IsSorted (done ++ ((k, v) ∷ es))
      → put k v done ≡ done ++ ((k, v) ∷ [])
  unfolding put
  put-last [] k v es s = refl
  put-last ((j, w) ∷ done) k v es s =
      rw (o.gt_of_lt j k (below-later j done k v es s.0 s.1), put)
        (ap (λ (m : Entries K V). (j, w) ∷ m) (put-last done k v es s.1))

  unfoldable pub refill : List (K × V) → OrdMap K V
  refill es = for_each (λ m e. insert e.0 e.1 m) empty es

  refill_from :
      (m : OrdMap K V) (es : Entries K V)
      → IsSorted (m.entries ++ es)
      → (for_each (λ n e. insert e.0 e.1 n) m es).entries ≡ m.entries ++ es
  unfolding insert
  refill_from m [] s = sym (append-nil m.entries)
  refill_from m ((k, v) ∷ es) s =
      let last : put k v m.entries ≡ m.entries ++ ((k, v) ∷ []) = put-last m.entries k v es s in
      let one : (m.entries ++ ((k, v) ∷ [])) ++ es ≡ m.entries ++ ((k, v) ∷ es) =
        append_assoc m.entries ((k, v) ∷ []) es in
      rw (last, one) at (refill_from (insert k v m) es (rw (last, one) s))

  -- A decoder that inserts the entries of a map in their order has the map.
  pub refill-iter : (m : OrdMap K V) → refill (iter m) ≡ m
  unfolding refill iter empty
  refill-iter m = map_ext _ m (refill_from empty m.entries m.sorted)
