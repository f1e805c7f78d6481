-- ===== src/Server/Producers/Expired.antt =====
-- picomq/pico-server/src/producers.rs: what is left after `expire`.
use picomq.Prelude.{
  ℕ, zero, suc, ◌+◌, ◌≤◌, ◌<◌, ◌≡◌, refl, true, false, Option, none, some, List, [], ◌∷◌, All,
  nat_ord, int_ord, bytes_ord, ◌==◌, ltb, leb, ℤ, arith, Bool-cases, inl, inr, ◌⊎◌, ◌∙◌,
  if◌then◌else◌, is_some, contains, length, Text,
}
use picomq.OrdMap.{
  OrdMap, get, remove, iter, len, remove_all, scan, keys_of, contains_key, get-retain, get-members,
  get-remove, get-remove_all, len-sum, sum-remove, sum, contains-keys_of-scan,
}
use picomq.OrdMap.Assoc.{kept_by}
use picomq.Server.Producers.State.{Producers, Tracked, Session, last_touched}
use picomq.Server.Producers.State.Expiry.{
  stalest_of, drop_stalest, shrink, retained, expire_tracked, expire, is_fresh, idle_ms, expiry_ms,
  max_tracked, orphaned,
}

-- An entry that is chosen is one of those that were looked at.
stalest_of-All :
    (P : ℤ × Tracked → Type 0) (best : ℤ × Tracked) (es : List (ℤ × Tracked))
    → P best
    → All P es
    → P (stalest_of best es)
unfolding stalest_of
stalest_of-All P best [] h hs = h
stalest_of-All P best (e ∷ es) h (k, ks) =
    elim (Bool-cases (ltb (last_touched e.1) (last_touched best.1))) [
      | inl c ↦ rw c (stalest_of-All P e es k ks)
      | inr c ↦ rw c (stalest_of-All P best es h ks)
    ]

len-remove :
    (k : ℤ) (v : Tracked) (m : OrdMap ℤ Tracked) → get k m ≡ some v → len (remove k m) + 1 ≡ len m
len-remove k v m h =
    let e : sum (λ v. 1) (remove k m) + 1 ≡ sum (λ v. 1) m = rw h at (sum-remove (λ v. 1) k m) in
    rw (len-sum (remove k m), len-sum m) e

-- Dropping the stalest entry of a map that has one takes one entry away, and changes no other.
drop_stalest-le :
    (es : List (ℤ × Tracked)) (m : OrdMap ℤ Tracked)
    → iter m ≡ es
    → 0 < length es
    → len (drop_stalest es m) + 1 ≡ len m
drop_stalest-le [] m e h = absurd (omega arith)
drop_stalest-le (b ∷ es) m e h =
    let there : All (λ (e : ℤ × Tracked). get e.0 m ≡ some e.1) (b ∷ es) =
      rw e at (get-members m) in
    len-remove (stalest_of b es).0 (stalest_of b es).1 m
      (stalest_of-All (λ (e : ℤ × Tracked). get e.0 m ≡ some e.1) b es there.0 there.1)

length-iter : (m : OrdMap ℤ Tracked) → length (iter m) ≡ len m
unfolding iter len
length-iter m = refl

-- With a unit of fuel for each entry the loop ends below the limit.
shrink-le : (fuel : ℕ) (m : OrdMap ℤ Tracked) → len m ≤ fuel → len (shrink fuel m) ≤ max_tracked
unfolding shrink
shrink-le zero m h = omega arith
shrink-le (suc fuel) m h = elim (Bool-cases (ltb max_tracked (len m))) [
  | inl e ↦ rw e (
      shrink-le fuel (drop_stalest (iter m) m) (
        let more : max_tracked < len m = ground arith in
        omega (arith, drop_stalest-le (iter m) m refl (omega (arith, length-iter m)), more)))
  | inr e ↦ rw e (ground arith)
]

-- The loop takes entries away and changes none.
abbrev Within : OrdMap ℤ Tracked → OrdMap ℤ Tracked → ℤ → Type 0
Within n m k = (get k n ≡ none) ⊎ (get k n ≡ get k m)

drop_stalest-Within :
    (es : List (ℤ × Tracked)) (m : OrdMap ℤ Tracked) (k : ℤ) → Within (drop_stalest es m) m k
drop_stalest-Within [] m k = inr refl
drop_stalest-Within (b ∷ es) m k = elim (Bool-cases (k == (stalest_of b es).0)) [
  | inl e ↦ inl (rw (get-remove k (stalest_of b es).0 m, e) refl)
  | inr e ↦ inr (rw (get-remove k (stalest_of b es).0 m, e) refl)
]

Within-trans : (l n m : OrdMap ℤ Tracked) (k : ℤ) → Within l n k → Within n m k → Within l m k
Within-trans l n m k (inl e) w = inl e
Within-trans l n m k (inr e) (inl f) = inl (e ∙ f)
Within-trans l n m k (inr e) (inr f) = inr (e ∙ f)

shrink-Within : (fuel : ℕ) (m : OrdMap ℤ Tracked) (k : ℤ) → Within (shrink fuel m) m k
unfolding shrink
shrink-Within zero m k = inr refl
shrink-Within (suc fuel) m k = elim (Bool-cases (ltb max_tracked (len m))) [
  | inl e ↦ rw e (
      Within-trans (shrink fuel (drop_stalest (iter m) m)) (drop_stalest (iter m) m) m k
        (shrink-Within fuel (drop_stalest (iter m) m) k) (drop_stalest-Within (iter m) m k))
  | inr e ↦ rw e (inr refl)
]

fresh-there :
    (now_ms : ℤ) (k : ℤ) (t : Tracked) (m : OrdMap ℤ Tracked)
    → get k (retained now_ms m) ≡ some t
    → (is_fresh now_ms (k, t) ≡ true) × (get k m ≡ some t)
fresh-there now_ms k t m h = kept (get k m) (rw (get-retain (is_fresh now_ms) k m) at h)
  where
    kept :
        (o : Option Tracked)
        → kept_by (is_fresh now_ms) k o ≡ some t
        → (is_fresh now_ms (k, t) ≡ true) × (o ≡ some t)
    kept none q = cc
    kept (some u) q = ground arith

shrink-there :
    (fuel : ℕ) (m : OrdMap ℤ Tracked) (k : ℤ) (t : Tracked)
    → get k (shrink fuel m) ≡ some t
    → get k m ≡ some t
shrink-there fuel m k t h = elim (shrink-Within fuel m k) [ inl e ↦ cc | inr e ↦ cc ]

-- The loop of `expire` ends, and then at most 1024 producers are tracked, however many there were.
pub expire-le : (s : Producers) (now_ms : ℤ) → len (expire s now_ms).1.tracked ≤ max_tracked
unfolding expire expire_tracked
expire-le s now_ms =
    shrink-le (len (retained now_ms s.tracked)) (retained now_ms s.tracked) (omega arith)

-- Each producer that is still tracked after `expire` is as it was, and was last touched within a day.
pub expire-tracked :
    (s : Producers) (now_ms k : ℤ) (t : Tracked)
    → get k (expire s now_ms).1.tracked ≡ some t
    → (get k s.tracked ≡ some t) × (leb (idle_ms now_ms t) expiry_ms ≡ true)
unfolding expire expire_tracked
expire-tracked s now_ms k t h =
    let m : OrdMap ℤ Tracked = retained now_ms s.tracked in
    let (fresh, there) = fresh-there now_ms k t s.tracked (shrink-there (len m) m k t h) in
    (there, fresh)

orphan-gone :
    (m : OrdMap ℤ Tracked) (sessions : OrdMap Text Session) (pid : Text) (session : Session)
    → get pid (remove_all (keys_of (scan (orphaned m) sessions)) sessions) ≡ some session
    → (get pid sessions ≡ some session) × (contains_key session.id m ≡ true)
orphan-gone m sessions pid session h = kept (get pid sessions) (
    rw
      (
        get-remove_all pid (keys_of (scan (orphaned m) sessions)) sessions,
        contains-keys_of-scan (orphaned m) pid sessions,
      )
      at h)
  where
    kept :
        (o : Option Session)
        → (if is_some (kept_by (orphaned m) pid o) then none else o) ≡ some session
        → (o ≡ some session) × (contains_key session.id m ≡ true)
    kept none q = cc
    kept (some u) q = ground arith

-- After `expire` each session that is left is as it was, its id is tracked, and its producer is not
-- among those that are returned.
pub expire-sessions :
    (s : Producers) (now_ms : ℤ) (pid : Text) (session : Session)
    → get pid (expire s now_ms).1.sessions ≡ some session
    → (get pid s.sessions ≡ some session)
      × (contains_key session.id (expire s now_ms).1.tracked ≡ true)
      × (contains pid (expire s now_ms).0 ≡ false)
unfolding expire
expire-sessions s now_ms pid session h =
    let m : OrdMap ℤ Tracked = expire_tracked now_ms s.tracked in
    let (there, tracked) = orphan-gone m s.sessions pid session h in
    (there, tracked, rw (contains-keys_of-scan (orphaned m) pid s.sessions, there) (ground arith))
