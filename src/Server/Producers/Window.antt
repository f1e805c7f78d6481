-- ===== src/Server/Producers/Window.antt =====
-- picomq/pico-server/src/producers.rs: the window of a Kafka producer holds its last batches, one
-- right after the other.
use picomq.Prelude.{
  ℕ, ◌≤◌, ◌≡◌, refl, true, none, some, List, [], ◌∷◌, ◌++◌, nat_ord, int_ord, ◌==◌, ◌⊎◌, ltb, ℤ,
  length, drop, arith, compare_ℤ_refl, Bool-cases, Option-cases, inl, inr, eq_of_test,
  if◌then◌else◌, length-append_lists,
}
use picomq.Server.Producers.Kafka.{
  Kafka, Span, record_span, slide, next_seq, accepted, duplicate, out_of_order, same_seqs,
  find_span, last_span, seq_after, in_epoch, validate_numeric, span_window,
}

-- Each span begins where the one before it ended.
abbrev pub IsChain : List Span → Type 0
IsChain [] = Unit
IsChain (s ∷ []) = Unit
IsChain (s ∷ t ∷ ss) = (t.first_seq ≡ next_seq s.last_seq 1) × IsChain (t ∷ ss)

pub record IsWindow (k : Kafka) : Type 0 where
  pub chain : IsChain k.spans
  pub short : length k.spans ≤ 5

IsChain-append :
    (ss : List Span) (t : Span)
    → IsChain ss
    → (ss ≡ []) ⊎ (t.first_seq ≡ seq_after (last_span ss))
    → IsChain (ss ++ (t ∷ []))
unfolding last_span
IsChain-append [] t c h = tt
IsChain-append (s ∷ []) t c (inl e) = cc
IsChain-append (s ∷ []) t c (inr e) = (e, tt)
IsChain-append (s ∷ u ∷ ss) t c (inl e) = cc
IsChain-append (s ∷ u ∷ ss) t c (inr e) = (c.0, IsChain-append (u ∷ ss) t c.1 (inr e))

IsChain-tail : (ss : List Span) → IsChain ss → IsChain (drop 1 ss)
IsChain-tail [] c = tt
IsChain-tail (s ∷ []) c = tt
IsChain-tail (s ∷ t ∷ ss) c = c.1

IsChain-slide : (ss : List Span) → IsChain ss → IsChain (slide ss)
IsChain-slide ss c = elim (Bool-cases (ltb span_window (length ss))) [
  | inl e ↦ rw e (IsChain-tail ss c)
  | inr e ↦ rw e c
]

length-tail : (ss : List Span) → length ss ≤ 6 → length (drop 1 ss) ≤ 5
length-tail [] h = omega arith
length-tail (s ∷ ss) h = omega arith

length-slide : (ss : List Span) → length ss ≤ 6 → length (slide ss) ≤ 5
length-slide ss h = elim (Bool-cases (ltb span_window (length ss))) [
  | inl e ↦ rw e (length-tail ss h)
  | inr e ↦ rw e (ground arith)
]

-- The spans that a batch at an epoch is put behind.
abbrev pub kept_spans : Kafka → ℤ → List Span
kept_spans k epoch = if epoch == k.epoch then k.spans else []

pub validate_numeric-in_epoch :
    (k : Kafka) (epoch first_seq last_seq : ℤ)
    → (epoch == k.epoch) ≡ true
    → validate_numeric (some k) epoch first_seq last_seq ≡ in_epoch k first_seq last_seq
unfolding validate_numeric
validate_numeric-in_epoch k epoch first_seq last_seq e =
    rw (eq_of_test epoch k.epoch e) (rw (compare_ℤ_refl k.epoch) refl)

in_epoch-accepted :
    (k : Kafka) (first_seq last_seq : ℤ)
    → in_epoch k first_seq last_seq ≡ accepted
    → (find_span (same_seqs first_seq last_seq) k.spans ≡ none)
      × (first_seq ≡ seq_after (last_span k.spans))
unfolding in_epoch
in_epoch-accepted k first_seq last_seq h =
    elim (Option-cases (find_span (same_seqs first_seq last_seq) k.spans)) [
      | inl e ↦ (e, follows (rw (e, in_epoch) at h))
      | inr (s, e) ↦ absurd (not_accepted s (rw (e, in_epoch) at h))
    ]
  where
    not_accepted : (s : Span) → duplicate s.base_offset ≡ accepted → ⊥
    not_accepted s q = cc

    follows :
        (if first_seq == seq_after (last_span k.spans)
            then accepted
            else out_of_order (seq_after (last_span k.spans)) first_seq)
          ≡ accepted
        → first_seq ≡ seq_after (last_span k.spans)
    follows q = ground (arith, eq_of_test first_seq (seq_after (last_span k.spans)))

-- An accepted batch at the epoch of the window follows on it, and no span of it is in there.
pub accepted-follows :
    (k : Kafka) (epoch first_seq last_seq : ℤ)
    → validate_numeric (some k) epoch first_seq last_seq ≡ accepted
    → ((kept_spans k epoch ≡ []) ⊎ (first_seq ≡ seq_after (last_span (kept_spans k epoch))))
      × (find_span (same_seqs first_seq last_seq) (kept_spans k epoch) ≡ none)
accepted-follows k epoch first_seq last_seq h = elim (Bool-cases (epoch == k.epoch)) [
  | inl e ↦
      let (none_there, follows) =
        in_epoch-accepted k first_seq last_seq
          (rw (validate_numeric-in_epoch k epoch first_seq last_seq e) at h) in
      rw e (inr follows, none_there)
  | inr e ↦ rw e (inl refl, unfold find_span in refl)
]

abbrev pub span_of : ℤ → ℤ → ℕ → Span
span_of first_seq last_seq base_offset = record {
  first_seq = first_seq;
  last_seq = last_seq;
  base_offset = base_offset;
}

kept_spans-IsWindow :
    (k : Kafka) (epoch : ℤ)
    → IsWindow k
    → IsChain (kept_spans k epoch) × (length (kept_spans k epoch) ≤ 5)
kept_spans-IsWindow k epoch w = elim (Bool-cases (epoch == k.epoch)) [
  | inl e ↦ rw e (w.chain, w.short)
  | inr e ↦ rw e (tt, omega arith)
]

-- Recording an accepted batch keeps the window a chain of at most five.
pub record_span-IsWindow :
    (k : Kafka) (epoch first_seq last_seq now_ms : ℤ) (base_offset : ℕ)
    → IsWindow k
    → (kept_spans k epoch ≡ []) ⊎ (first_seq ≡ seq_after (last_span (kept_spans k epoch)))
    → IsWindow (record_span k epoch (span_of first_seq last_seq base_offset) now_ms)
unfolding record_span
record_span-IsWindow k epoch first_seq last_seq now_ms base_offset w h =
    let (chain, short) = kept_spans-IsWindow k epoch w in
    let t : Span = span_of first_seq last_seq base_offset in
    let bound : length (kept_spans k epoch ++ (t ∷ [])) ≤ 6 =
      omega (arith, length-append_lists (kept_spans k epoch) (t ∷ [])) in
    record {
      chain =
          IsChain-slide (kept_spans k epoch ++ (t ∷ []))
            (IsChain-append (kept_spans k epoch) t chain h);
      short = length-slide (kept_spans k epoch ++ (t ∷ [])) bound;
    }
