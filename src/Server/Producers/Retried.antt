-- ===== src/Server/Producers/Retried.antt =====
-- picomq/pico-server/src/producers.rs: a batch that landed is recognised when it is sent again.
use Prim.Native.Nat.{suc}
use picomq.Prelude.{
  ℕ, ◌≤◌, ◌≡◌, refl, Bool, true, false, none, some, List, [], ◌∷◌, ◌++◌, nat_ord, int_ord, ltb, ℤ,
  length, drop, arith, Bool-cases, inl, inr, eq_self, length-append_lists, compare_ℤ_refl,
}
use mathlib.Core.List.{append_assoc}
use picomq.Server.Producers.Kafka
use picomq.Server.Producers.Kafka.{
  Kafka, Span, new_kafka, record_span, slide, find_span, same_seqs, in_epoch, validate_numeric,
  span_window,
}
use picomq.Server.Producers.Window.{kept_spans, span_of}

-- The span stands in the window with at most `n` behind it, and nothing in front of it matches.
pub record InWindow (span : Span) (n : ℕ) (k : Kafka) : Type 0 where
  pub front : List Span
  pub back : List Span
  pub spans : k.spans ≡ front ++ (span ∷ back)
  pub first : find_span (same_seqs span.first_seq span.last_seq) front ≡ none
  pub few : length back ≤ n

find_span-append :
    (p : Span → Bool) (front back : List Span) (s : Span)
    → find_span p front ≡ none
    → p s ≡ true
    → find_span p (front ++ (s ∷ back)) ≡ some s
unfolding find_span
find_span-append p [] back s h e = rw e refl
find_span-append p (t ∷ front) back s h e = ground (arith, find_span-append p front back s)

find_span-tail :
    (p : Span → Bool) (ss : List Span) → find_span p ss ≡ none → find_span p (drop 1 ss) ≡ none
unfolding find_span
find_span-tail p [] h = h
find_span-tail p (s ∷ ss) h = ground arith

-- What the slide leaves of a list that ends in a span and few behind it.
slide-append :
    (p : Span → Bool) (front back : List Span) (s : Span)
    → find_span p front ≡ none
    → length back ≤ 4
    → (front' : List Span) × (slide (front ++ (s ∷ back)) ≡ front' ++ (s ∷ back))
      × (find_span p front' ≡ none)
slide-append p [] back s h few =
    let short : ltb span_window (length (s ∷ back)) ≡ false = ground arith in ([], rw short refl, h)
slide-append p (t ∷ front) back s h few =
    elim (Bool-cases (ltb span_window (length (t ∷ (front ++ (s ∷ back)))))) [
      | inl e ↦ (front, rw e refl, find_span-tail p (t ∷ front) h)
      | inr e ↦ (t ∷ front, rw e refl, h)
    ]

pub record_span-InWindow :
    (k : Kafka) (epoch first_seq last_seq now_ms : ℤ) (base_offset : ℕ)
    → find_span (same_seqs first_seq last_seq) (kept_spans k epoch) ≡ none
    → InWindow
        (span_of first_seq last_seq base_offset)
        0
        (record_span k epoch (span_of first_seq last_seq base_offset) now_ms)
unfolding record_span
record_span-InWindow k epoch first_seq last_seq now_ms base_offset h =
    let (front, e, none_there) =
      slide-append (same_seqs first_seq last_seq) (kept_spans k epoch) []
        (span_of first_seq last_seq base_offset) h (omega arith) in
    record { front = front; back = []; spans = e; first = none_there; few = omega arith }

pub record_span-InWindow_later :
    (span later : Span) (n : ℕ) (k : Kafka) (epoch now_ms : ℤ)
    → n ≤ 3
    → epoch ≡ k.epoch
    → InWindow span n k
    → InWindow span (suc n) (record_span k epoch later now_ms)
unfolding record_span
record_span-InWindow_later span later n k epoch now_ms small same w =
    let behind : length (w.back ++ (later ∷ [])) ≤ suc n =
      omega (arith, length-append_lists w.back (later ∷ []), w.few) in
    let (front, e, none_there) =
      slide-append (same_seqs span.first_seq span.last_seq) w.front (w.back ++ (later ∷ [])) span
        w.first (omega arith) in
    let kept : kept_spans k epoch ≡ w.front ++ (span ∷ w.back) =
      rw (same, eq_self k.epoch) w.spans in
    let whole : kept_spans k epoch ++ (later ∷ []) ≡ w.front ++ (span ∷ (w.back ++ (later ∷ []))) =
      rw kept (append_assoc w.front (span ∷ w.back) (later ∷ [])) in
    record {
      front = front;
      back = w.back ++ (later ∷ []);
      spans = rw whole e;
      first = none_there;
      few = behind;
    }

pub in_epoch-InWindow :
    (span : Span) (n : ℕ) (k : Kafka)
    → InWindow span n k
    → in_epoch k span.first_seq span.last_seq ≡ Kafka.duplicate span.base_offset
unfolding in_epoch
in_epoch-InWindow span n k w =
    let p = same_seqs span.first_seq span.last_seq in
    let found : find_span p k.spans ≡ some span = rw w.spans (
      find_span-append p w.front w.back span w.first
        (rw (compare_ℤ_refl span.first_seq, compare_ℤ_refl span.last_seq) refl)) in
    rw (found, in_epoch) refl
