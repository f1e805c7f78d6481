-- ===== src/Metadata/LeastLoaded.antt =====
-- picomq/pico-metadata/src/apply.rs: `least_loaded` finds the best node.
use mathlib.Core.Path.{subst}
use picomq.Prelude.{
  ℕ, ◌≡◌, refl, sym, ap, true, false, none, some, List, [], ◌∷◌, arith, int_ord, nat_ord, ◌==◌, ℤ,
  map_or, map_option, Bool-cases, inl, inr, for_each, All, eq_of_test,
}
use picomq.OrdMap.{get, iter, get-members}
use picomq.OrdMap.Assoc.{Entries, lookup}
use picomq.Metadata.State.{NodeRow, MetadataState}
use picomq.Metadata.Apply.Placement.{
  takes_streams, Winner, score, beats, better, consider, least_loaded,
}

-- No node of the list beats the winner, and no winner means no node.
abbrev Stands : MetadataState → ℤ → ℕ → Winner → Type 0
Stands s n score none = ⊥
Stands s n score (some (b, best)) = beats n score b best ≡ false

beats_trans :
    (a : ℤ) (x : ℕ) (b : ℤ) (y : ℕ) (c : ℤ) (z : ℕ)
    → beats a x b y ≡ false
    → beats c z b y ≡ true
    → beats a x c z ≡ false
beats_trans a x b y c z h k = ground (arith, int_ord.lt_trans a c b, int_ord.lt_of_gt a c)

better-Stands :
    (s : MetadataState) (n : ℤ) (x : ℕ) (w : Winner) (m : ℤ) (y : ℕ)
    → Stands s n x w
    → Stands s n x (better w m y)
better-Stands s n x (some (b, best)) m y h = elim (Bool-cases (beats m y b best)) [
  | inl e ↦ rw e (beats_trans n x b best m y h e)
  | inr e ↦ rw e h
]
better-Stands s n x none m y h = absurd h

better-Stands-own : (s : MetadataState) (w : Winner) (m : ℤ) (y : ℕ) → Stands s m y (better w m y)
better-Stands-own s none m y = ground (arith, int_ord.cmp_refl m)
better-Stands-own s (some (b, best)) m y = elim (Bool-cases (beats m y b best)) [
  | inl e ↦ rw e (ground (arith, int_ord.cmp_refl m))
  | inr e ↦ rw e e
]

consider-Stands :
    (s : MetadataState) (n : ℤ) (x : ℕ) (w : Winner) (e : ℤ × NodeRow)
    → Stands s n x w
    → Stands s n x (consider s w e)
unfolding consider
consider-Stands s n x w (m, node) h = elim (Bool-cases (takes_streams node)) [
  | inl t ↦ rw t (better-Stands s n x w m (score s m node) h)
  | inr f ↦ rw f h
]

consider-own :
    (s : MetadataState) (w : Winner) (m : ℤ) (row : NodeRow)
    → takes_streams row ≡ true
    → Stands s m (score s m row) (consider s w (m, row))
unfolding consider
consider-own s w m row takes = rw takes (better-Stands-own s w m (score s m row))

loop-Stands :
    (s : MetadataState) (n : ℤ) (x : ℕ) (xs : List (ℤ × NodeRow)) (w : Winner)
    → Stands s n x w
    → Stands s n x (for_each (consider s) w xs)
loop-Stands s n x [] w h = h
loop-Stands s n x (e ∷ xs) w h = loop-Stands s n x xs (consider s w e) (consider-Stands s n x w e h)

-- Every node of the list that takes streams stands behind the winner.
loop-best :
    (s : MetadataState) (n : ℤ) (node : NodeRow) (xs : Entries ℤ NodeRow) (w : Winner)
    → lookup n xs ≡ some node
    → takes_streams node ≡ true
    → Stands s n (score s n node) (for_each (consider s) w xs)
unfolding lookup
loop-best s n node [] w found takes = cc
loop-best s n node ((m, row) ∷ xs) w found takes = elim (Bool-cases (n == m)) [
  | inl same ↦
      let f : some row ≡ some node = ground (arith, found, same) in
      let q : row ≡ node = ap (map_or row (λ r. r)) f in
      let own = consider-own s w m row (rw q takes) in
      loop-Stands s n (score s n node) xs (consider s w (m, row)) (
        subst (λ k. Stands s k (score s k node) (consider s w (m, row))) (sym (eq_of_test n m same))
          (subst (λ r. Stands s m (score s m r) (consider s w (m, row))) q own))
  | inr other ↦ loop-best s n node xs (consider s w (m, row)) (ground (arith, found, other)) takes
]

-- The winner is a node of the list that takes streams, with its score.
abbrev IsNode : MetadataState → Winner → Type 0
IsNode s none = Unit
IsNode s (some (b, best)) =
    (row : NodeRow) × (get b s.nodes ≡ some row)
    × (takes_streams row ≡ true)
    × (best ≡ score s b row)

better-IsNode :
    (s : MetadataState) (w : Winner) (m : ℤ) (row : NodeRow)
    → get m s.nodes ≡ some row
    → takes_streams row ≡ true
    → IsNode s w
    → IsNode s (better w m (score s m row))
better-IsNode s none m row found takes h = (row, found, takes, refl)
better-IsNode s (some (b, best)) m row found takes h =
    elim (Bool-cases (beats m (score s m row) b best)) [
      | inl e ↦ rw e (row, found, takes, refl)
      | inr e ↦ rw e h
    ]

consider-IsNode :
    (s : MetadataState) (w : Winner) (m : ℤ) (row : NodeRow)
    → get m s.nodes ≡ some row
    → IsNode s w
    → IsNode s (consider s w (m, row))
unfolding consider
consider-IsNode s w m row found h = elim (Bool-cases (takes_streams row)) [
  | inl e ↦ rw e (better-IsNode s w m row found e h)
  | inr e ↦ rw e h
]

loop-IsNode :
    (s : MetadataState) (xs : Entries ℤ NodeRow) (w : Winner)
    → All (λ (e : ℤ × NodeRow). get e.0 s.nodes ≡ some e.1) xs
    → IsNode s w
    → IsNode s (for_each (consider s) w xs)
loop-IsNode s [] w all h = h
loop-IsNode s ((m, row) ∷ xs) w all h =
    loop-IsNode s xs (consider s w (m, row)) all.1 (consider-IsNode s w m row all.0 h)

finish :
    (s : MetadataState) (n : ℤ) (node : NodeRow) (w : Winner)
    → IsNode s w
    → Stands s n (score s n node) w
    → (b : ℤ) × (row : NodeRow) × (map_option (λ (x : ℤ × ℕ). x.0) w ≡ some b)
      × (get b s.nodes ≡ some row)
      × (takes_streams row ≡ true)
      × (beats n (score s n node) b (score s b row) ≡ false)
finish s n node none is h = absurd h
finish s n node (some (b, best)) (row, found, takes, same) h =
    (b, row, refl, found, takes, subst (λ x. beats n (score s n node) b x ≡ false) same h)

-- Where some node takes streams, `least_loaded` finds one that does, and no node that does beats
-- it: none has a lower score, and none with the same score has a lower id.
pub least_loaded-best :
    (s : MetadataState) (n : ℤ) (node : NodeRow)
    → get n s.nodes ≡ some node
    → takes_streams node ≡ true
    → (b : ℤ) × (row : NodeRow) × (least_loaded s ≡ some b)
      × (get b s.nodes ≡ some row)
      × (takes_streams row ≡ true)
      × (beats n (score s n node) b (score s b row) ≡ false)
unfolding least_loaded iter get
least_loaded-best s n node found takes =
    finish s n node (for_each (consider s) none (iter s.nodes))
      (loop-IsNode s (iter s.nodes) none (get-members s.nodes) tt)
      (loop-best s n node (iter s.nodes) none found takes)
