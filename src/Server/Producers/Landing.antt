-- ===== src/Server/Producers/Landing.antt =====
-- picomq/pico-server/src/producers.rs: what later steps leave of a batch that has landed.
use Prim.Native.Nat.{suc}
use picomq.Prelude.{
  ℕ, ◌+◌, ◌≤◌, ◌≡◌, refl, sym, ◌∙◌, eq_comm, Bool, true, false, not, ◌||◌, Option, none, some,
  nat_ord, int_ord, ◌==◌, ℤ, pos, arith, Bool-cases, inl, inr, eq_of_test, eq_self, if◌then◌else◌,
  ◌&&◌, any, bytes_ord,
}
use picomq.OrdMap.{get, get-insert, contains_key, iter}
use picomq.Server.Producers.Kafka
use picomq.Server.Producers.Kafka.{
  Kafka, Span, new_kafka, record_span, find_span, same_seqs, validate_numeric,
}
use picomq.Server.Producers.Window.{kept_spans, accepted-follows, span_of}
use picomq.Server.Producers.Retried.{InWindow, record_span-InWindow, record_span-InWindow_later}
use picomq.Server.Producers.Steps.{Step, Run}
use picomq.Server.Producers.State.Expiry.{expire, is_session}
use picomq.Server.Producers.State.{
  Session, Producers, Tracked, kafka, http, NumericProducer, record_numeric, known_kafka,
  entry_or_new, recorded,
}

-- How many batches of a producer id a step puts into its window.
abbrev pub own_header : ℤ → Option NumericProducer → ℕ
own_header id none = 0
own_header id (some q) = if q.id == id then 1 else 0

abbrev pub own_step : {s t : Producers} → ℤ → Step s t → ℕ
own_step id (Step.numeric s q record_count base_offset now_ms last_seq e) = own_header id (some q)
own_step id (Step.asked s q record_count now_ms) = 0
own_step id (Step.established s producer_id session now_ms) = 0
own_step id (Step.served s producer_id session seq now_ms there e) = 0
own_step id (Step.expired s now_ms) = 0
own_step id (Step.noted s base_offset next_offset) = 0
own_step id (Step.replayed s header now_ms) = own_header id header.producer

unfoldable pub own : {s t : Producers} → ℤ → Run s t → ℕ
own id Run.done = 0
own id (Run.more r step) = own id r + own_step id step

abbrev pub apart_from : ℤ → Option Session → Bool
apart_from id none = true
apart_from id (some session) = not (session.id == id)

abbrev pub calm_header : NumericProducer → Producers → Option NumericProducer → Bool
calm_header p s none = true
calm_header p s (some q) =
    not (q.id == p.id) || (q.epoch == p.epoch && not (any (is_session q.id) (iter s.sessions)))

-- The step leaves the producer tracked and at its epoch: a batch of it is at the same epoch, no session
-- takes its id, the session that another replaces has not its id, and expiry does not drop it.
abbrev pub calm_step : {s t : Producers} → NumericProducer → Step s t → Bool
calm_step p (Step.numeric s q record_count base_offset now_ms last_seq e) =
    not (q.id == p.id) || q.epoch == p.epoch
calm_step p (Step.asked s q record_count now_ms) = true
calm_step p (Step.established s producer_id session now_ms) =
    not (session.id == p.id) && apart_from p.id (get producer_id s.sessions)
calm_step p (Step.served s producer_id session seq now_ms there e) = not (session.id == p.id)
calm_step p (Step.expired s now_ms) = contains_key p.id (expire s now_ms).1.tracked
calm_step p (Step.noted s base_offset next_offset) = true
calm_step p (Step.replayed s header now_ms) = calm_header p s header.producer

unfoldable pub calm : {s t : Producers} → NumericProducer → Run s t → Bool
calm p Run.done = true
calm p (Run.more r step) = calm p r && calm_step p step

-- The tracked entry of the producer has the span in its window, with at most `n` behind it.
pub record Remembers (s : Producers) (p : NumericProducer) (span : Span) (n : ℕ) : Type 0 where
  pub entry : Kafka
  pub there : get p.id s.tracked ≡ some (kafka entry)
  pub epoch : p.epoch ≡ entry.epoch
  pub window : InWindow span n entry

-- The entry is not that of an HTTP session.
abbrev pub is_numeric : Option Tracked → Bool
is_numeric (some (http _)) = false
is_numeric (some (kafka _)) = true
is_numeric none = true

pub get-record_numeric :
    (s : Producers) (p : NumericProducer) (last_seq now_ms : ℤ) (base_offset : ℕ) (j : ℤ)
    → get j (record_numeric s (some (p, last_seq)) base_offset now_ms).tracked ≡ (
        if j == p.id
        then some (
            recorded
              (entry_or_new (get p.id s.tracked))
              p.epoch
              (span_of p.first_seq last_seq base_offset)
              now_ms)
        else get j s.tracked)
unfolding record_numeric
get-record_numeric s p last_seq now_ms base_offset j = get-insert j p.id _ s.tracked

-- Nothing in the window that the batch is put behind has its sequences.
new-before :
    (entry : Option Tracked) (epoch first_seq last_seq : ℤ)
    → is_numeric entry ≡ true
    → validate_numeric (known_kafka entry) epoch first_seq last_seq ≡ Kafka.accepted
    → (k : Kafka) × (entry_or_new entry ≡ kafka k)
      × (find_span (same_seqs first_seq last_seq) (kept_spans k epoch) ≡ none)
new-before none epoch first_seq last_seq n h = (new_kafka, refl, nothing)
  where
    nothing : find_span (same_seqs first_seq last_seq) (kept_spans new_kafka epoch) ≡ none
    nothing = elim (Bool-cases (epoch == pos 0)) [
      | inl e ↦ rw e (unfold find_span in refl)
      | inr e ↦ rw e (unfold find_span in refl)
    ]
new-before (some (kafka k)) epoch first_seq last_seq n h =
    (k, refl, (accepted-follows k epoch first_seq last_seq h).1)
new-before (some (http x)) epoch first_seq last_seq n h = cc

pub record_numeric-Remembers :
    (s : Producers) (p : NumericProducer) (last_seq now_ms : ℤ) (base_offset : ℕ)
    → is_numeric (get p.id s.tracked) ≡ true
    → validate_numeric (known_kafka (get p.id s.tracked)) p.epoch p.first_seq last_seq
      ≡ Kafka.accepted
    → Remembers
        (record_numeric s (some (p, last_seq)) base_offset now_ms)
        p
        (span_of p.first_seq last_seq base_offset)
        0
record_numeric-Remembers s p last_seq now_ms base_offset n h =
    let (k, old, none_there) = new-before (get p.id s.tracked) p.epoch p.first_seq last_seq n h in
    record {
      entry = record_span k p.epoch (span_of p.first_seq last_seq base_offset) now_ms;
      there = rw (get-record_numeric s p last_seq now_ms base_offset p.id, eq_self p.id, old) refl;
      epoch = unfold record_span in refl;
      window = record_span-InWindow k p.epoch p.first_seq last_seq now_ms base_offset none_there;
    }

-- The entry stays where what is tracked at its id does.
pub Remembers-frame :
    (s t : Producers) (p : NumericProducer) (span : Span) (n : ℕ)
    → get p.id t.tracked ≡ get p.id s.tracked
    → Remembers s p span n
    → Remembers t p span n
Remembers-frame s t p span n same h = record {
  entry = h.entry;
  there = same ∙ h.there;
  epoch = h.epoch;
  window = h.window;
}

-- A batch of the same producer and epoch goes behind.
record_own-Remembers :
    (s : Producers) (p q : NumericProducer) (span : Span) (n : ℕ) (last_seq now_ms : ℤ)
    (base_offset : ℕ)
    → q.id ≡ p.id
    → q.epoch ≡ p.epoch
    → n ≤ 3
    → Remembers s p span n
    → Remembers (record_numeric s (some (q, last_seq)) base_offset now_ms) p span (suc n)
record_own-Remembers s p q span n last_seq now_ms base_offset same_id same_epoch small h =
    let later : Span = span_of q.first_seq last_seq base_offset in
    let there : get q.id s.tracked ≡ some (kafka h.entry) = rw same_id h.there in
    record {
      entry = record_span h.entry q.epoch later now_ms;
      there =
          rw (get-record_numeric s q last_seq now_ms base_offset p.id, there)
            (rw (same_id, eq_self p.id) refl);
      epoch = unfold record_span in sym same_epoch;
      window =
          record_span-InWindow_later span later n h.entry q.epoch now_ms small
            (same_epoch ∙ h.epoch) h.window;
    }

pub record_numeric-more :
    (s : Producers) (p q : NumericProducer) (span : Span) (n : ℕ) (last_seq now_ms : ℤ)
    (base_offset : ℕ)
    → (not (q.id == p.id) || q.epoch == p.epoch) ≡ true
    → n + own_header p.id (some q) ≤ 4
    → Remembers s p span n
    → Remembers
        (record_numeric s (some (q, last_seq)) base_offset now_ms)
        p
        span
        (n + own_header p.id (some q))
record_numeric-more s p q span n last_seq now_ms base_offset u small h =
    elim (Bool-cases (q.id == p.id)) [
      | inl e ↦
          let count : suc n ≡ n + own_header p.id (some q) = ground arith in
          rw count at (
            record_own-Remembers s p q span n last_seq now_ms base_offset (eq_of_test q.id p.id e)
              (eq_of_test q.epoch p.epoch (ground arith)) (ground arith) h)
      | inr e ↦
          let count : n ≡ n + own_header p.id (some q) = ground arith in
          let other : (p.id == q.id) ≡ false = rw (eq_comm p.id q.id) e in
          rw count at (
            Remembers-frame s (record_numeric s (some (q, last_seq)) base_offset now_ms) p span n
              (rw (get-record_numeric s q last_seq now_ms base_offset p.id, other) refl) h)
    ]
