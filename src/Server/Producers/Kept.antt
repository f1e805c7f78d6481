-- ===== src/Server/Producers/Kept.antt =====
-- picomq/pico-server/src/producers.rs: the window of a producer through the steps of the owner.
use picomq.Prelude.{
  ℕ, ◌+◌, ◌≤◌, ◌≡◌, refl, sym, ◌∙◌, true, false, not, ◌&&◌, Option, none, some, nat_ord, int_ord,
  bytes_ord, ◌==◌, ℤ, Text, arith, Bool-cases, inl, inr, eq_comm, eq_of_test, any, is_some,
}
use picomq.OrdMap.{get, get-insert, get-remove, contains_key, iter, insert}
use picomq.Server.Producers.Kafka
use picomq.Server.Producers.Kafka.{Kafka, Span, validate_numeric}
use picomq.Server.Producers.Retried.{InWindow}
use picomq.Server.Producers.Steps.{Step, Run}
use picomq.Server.Producers.State.{
  Producers, Tracked, kafka, http, Session, NumericProducer, admit_numeric, record_numeric,
  establish, record_http, note_appended, forget, touch, answer, batch_end, known_kafka,
}
use picomq.Server.Producers.State.Expiry.{expire, is_session, fold_header, fold_producer}
use picomq.Server.Producers.Expired.{expire-tracked}
use picomq.Server.Producers.Landing.{
  own_header, own_step, own, apart_from, calm_header, calm_step, calm, Remembers, Remembers-frame,
  record_numeric-more,
}

-- What is put at another key is not seen.
pub get-insert_other :
    (k j : ℤ) (t : Tracked) (s : Producers)
    → (j == k) ≡ false
    → get k (insert j t s.tracked) ≡ get k s.tracked
get-insert_other k j t s h =
    let other : (k == j) ≡ false = rw (eq_comm k j) h in rw (get-insert k j t s.tracked, other) refl

get-forget :
    (k : ℤ) (o : Option Session) (s : Producers)
    → apart_from k o ≡ true
    → get k (forget o s.tracked) ≡ get k s.tracked
get-forget k none s h = refl
get-forget k (some previous) s h =
    let other : (k == previous.id) ≡ false = rw (eq_comm k previous.id) (ground arith) in
    rw (get-remove k previous.id s.tracked, other) refl

pub get-establish :
    (k : ℤ) (s : Producers) (producer_id : Text) (session : Session) (now_ms : ℤ)
    → (not (session.id == k) && apart_from k (get producer_id s.sessions)) ≡ true
    → get k (establish s producer_id session now_ms).tracked ≡ get k s.tracked
unfolding establish
get-establish k s producer_id session now_ms h =
    let other : (k == session.id) ≡ false = rw (eq_comm k session.id) (ground arith) in
    rw (get-insert k session.id _ (forget (get producer_id s.sessions) s.tracked), other)
      (get-forget k (get producer_id s.sessions) s (ground arith))

pub get-record_http :
    (k : ℤ) (s : Producers) (session : Session) (seq : ℕ) (now_ms : ℤ)
    → (session.id == k) ≡ false
    → get k (record_http s session seq now_ms).tracked ≡ get k s.tracked
unfolding record_http
get-record_http k s session seq now_ms h = get-insert_other k session.id _ s h

-- A producer that is tracked after `expire` has the entry that it had.
pub get-expire :
    (k : ℤ) (s : Producers) (now_ms : ℤ)
    → contains_key k (expire s now_ms).1.tracked ≡ true
    → get k (expire s now_ms).1.tracked ≡ get k s.tracked
get-expire k s now_ms h = kept (get k (expire s now_ms).1.tracked) refl h
  where
    kept :
        (o : Option Tracked)
        → get k (expire s now_ms).1.tracked ≡ o
        → is_some o ≡ true
        → get k (expire s now_ms).1.tracked ≡ get k s.tracked
    kept none e q = cc
    kept (some t) e q = let (there, _) = expire-tracked s now_ms k t e in e ∙ sym there

pub note_appended-tracked :
    (s : Producers) (base_offset next_offset : ℕ)
    → (note_appended s base_offset next_offset).tracked ≡ s.tracked
unfolding note_appended
note_appended-tracked s base_offset next_offset = elim (Bool-cases (s.covered == base_offset)) [
  | inl c ↦ rw c refl
  | inr c ↦ rw c refl
]

pub note_appended-sessions :
    (s : Producers) (base_offset next_offset : ℕ)
    → (note_appended s base_offset next_offset).sessions ≡ s.sessions
unfolding note_appended
note_appended-sessions s base_offset next_offset = elim (Bool-cases (s.covered == base_offset)) [
  | inl c ↦ rw c refl
  | inr c ↦ rw c refl
]

pub get-fold_producer :
    (k : ℤ) (s : Producers) (q : NumericProducer) (record_count base_offset : ℕ) (now_ms : ℤ)
    (o : Option Tracked)
    → (q.id == k) ≡ false
    → get k (fold_producer s q record_count base_offset now_ms o).tracked ≡ get k s.tracked
unfolding fold_producer record_numeric
get-fold_producer k s q record_count base_offset now_ms (some (http h)) e =
    get-insert_other k q.id _ s e
get-fold_producer k s q record_count base_offset now_ms none e =
    elim (Bool-cases (any (is_session q.id) (iter s.sessions))) [
      | inl c ↦ rw c (get-insert_other k q.id _ s e)
      | inr c ↦ rw c (get-insert_other k q.id _ s e)
    ]
get-fold_producer k s q record_count base_offset now_ms (some (kafka x)) e =
    elim (Bool-cases (any (is_session q.id) (iter s.sessions))) [
      | inl c ↦ rw c (get-insert_other k q.id _ s e)
      | inr c ↦ rw c (get-insert_other k q.id _ s e)
    ]

pub zero_more : (m : ℕ) → m ≡ m + 0
zero_more m = omega arith

touch-Remembers :
    (s : Producers) (p : NumericProducer) (span : Span) (n : ℕ) (id now_ms : ℤ) (o : Option Tracked)
    → get id s.tracked ≡ o
    → Remembers s p span n
    → Remembers (touch s id now_ms o) p span n
touch-Remembers s p span n id now_ms none e h = h
touch-Remembers s p span n id now_ms (some (http x)) e h = h
touch-Remembers s p span n id now_ms (some (kafka k)) e h = elim (Bool-cases (id == p.id)) [
  | inl c ↦
      let same_id : id ≡ p.id = eq_of_test id p.id c in
      let found : (p.id == id) ≡ true = rw (eq_comm p.id id) c in
      let here : some (kafka k) ≡ some (kafka h.entry) = sym e ∙ (rw same_id h.there) in
      let same : k ≡ h.entry = kafka_inj here in
      let w : InWindow span n k = rw same h.window in
      record {
        entry = record k { last_touched_ms = now_ms };
        there =
            rw (get-insert p.id id (kafka (record k { last_touched_ms = now_ms })) s.tracked, found)
              refl;
        epoch = rw same h.epoch;
        window = record {
          front = w.front;
          back = w.back;
          spans = w.spans;
          first = w.first;
          few = w.few;
        };
      }
  | inr c ↦
      Remembers-frame s (touch s id now_ms (some (kafka k))) p span n
        (get-insert_other p.id id _ s c) h
]
  where
    kafka_inj : {a b : Kafka} → some (kafka a) ≡ some (kafka b) → a ≡ b
    kafka_inj q = cc

answer-Remembers :
    (s : Producers) (p q : NumericProducer) (span : Span) (n : ℕ) (last_seq now_ms : ℤ)
    (d : Kafka.Decision)
    → Remembers s p span n
    → Remembers (answer s q last_seq now_ms d).1 p span n
unfolding answer
answer-Remembers s p q span n last_seq now_ms Kafka.accepted h = h
answer-Remembers s p q span n last_seq now_ms (Kafka.duplicate base_offset) h =
    touch-Remembers s p span n q.id now_ms (get q.id s.tracked) refl h
answer-Remembers s p q span n last_seq now_ms (Kafka.out_of_order x y) h = h
answer-Remembers s p q span n last_seq now_ms (Kafka.fenced x) h = h

fold_producer-Remembers :
    (s : Producers) (p q : NumericProducer) (span : Span) (n record_count base_offset : ℕ)
    (now_ms : ℤ)
    → calm_header p s (some q) ≡ true
    → n + own_header p.id (some q) ≤ 4
    → Remembers s p span n
    → Remembers
        (fold_producer s q record_count base_offset now_ms (get q.id s.tracked))
        p
        span
        (n + own_header p.id (some q))
unfolding fold_producer
fold_producer-Remembers s p q span n record_count base_offset now_ms u small h =
    elim (Bool-cases (q.id == p.id)) [
      | inl e ↦
          let there : get q.id s.tracked ≡ some (kafka h.entry) =
            rw (eq_of_test q.id p.id e) h.there in
          let none_has : any (is_session q.id) (iter s.sessions) ≡ false = ground arith in
          rw (there, none_has, fold_producer)
            (record_numeric-more s p q span n (batch_end q.first_seq record_count) now_ms
              base_offset (ground arith) small h)
      | inr e ↦
          let count : n ≡ n + own_header p.id (some q) = ground arith in
          rw count at (
            Remembers-frame s
              (fold_producer s q record_count base_offset now_ms (get q.id s.tracked)) p span n
              (get-fold_producer p.id s q record_count base_offset now_ms (get q.id s.tracked) e) h)
    ]

fold_header-Remembers :
    (s : Producers) (p : NumericProducer) (span : Span) (n record_count base_offset : ℕ)
    (now_ms : ℤ) (o : Option NumericProducer)
    → calm_header p s o ≡ true
    → n + own_header p.id o ≤ 4
    → Remembers s p span n
    → Remembers
        (fold_header now_ms s
          (record { base_offset = base_offset; record_count = record_count; producer = o }))
        p
        span
        (n + own_header p.id o)
fold_header-Remembers s p span n record_count base_offset now_ms none u small h =
    rw (zero_more n) at h
fold_header-Remembers s p span n record_count base_offset now_ms (some q) u small h =
    fold_producer-Remembers s p q span n record_count base_offset now_ms u small h

Step-Remembers :
    {s t : Producers} (p : NumericProducer) (span : Span) (n : ℕ) (step : Step s t)
    → calm_step p step ≡ true
    → n + own_step p.id step ≤ 4
    → Remembers s p span n
    → Remembers t p span (n + own_step p.id step)
unfolding admit_numeric
Step-Remembers p span n (Step.numeric s q record_count base_offset now_ms last_seq e) u small h =
    record_numeric-more s p q span n last_seq now_ms base_offset u small h
Step-Remembers p span n (Step.asked s none record_count now_ms) u small h = rw (zero_more n) at h
Step-Remembers p span n (Step.asked s (some q) record_count now_ms) u small h =
    let last_seq : ℤ = batch_end q.first_seq record_count in
    let d : Kafka.Decision =
      validate_numeric (known_kafka (get q.id s.tracked)) q.epoch q.first_seq last_seq in
    rw (zero_more n) at (answer-Remembers s p q span n last_seq now_ms d h)
Step-Remembers p span n (Step.established s producer_id session now_ms) u small h =
    rw (zero_more n) at (
      Remembers-frame s (establish s producer_id session now_ms) p span n
        (get-establish p.id s producer_id session now_ms u) h)
Step-Remembers p span n (Step.served s producer_id session seq now_ms there e) u small h =
    rw (zero_more n) at (
      Remembers-frame s (record_http s session seq now_ms) p span n
        (get-record_http p.id s session seq now_ms (ground arith)) h)
Step-Remembers p span n (Step.expired s now_ms) u small h =
    rw (zero_more n) at
      (Remembers-frame s (expire s now_ms).1 p span n (get-expire p.id s now_ms u) h)
Step-Remembers p span n (Step.noted s base_offset next_offset) u small h = rw (zero_more n) at (
    Remembers-frame s (note_appended s base_offset next_offset) p span n
      (rw (note_appended-tracked s base_offset next_offset) refl) h)
Step-Remembers p span n (Step.replayed s header now_ms) u small h =
    fold_header-Remembers s p span n header.record_count header.base_offset now_ms header.producer u
      small h

pub Run-Remembers :
    {s t : Producers} (p : NumericProducer) (span : Span) (r : Run s t)
    → calm p r ≡ true
    → own p.id r ≤ 4
    → Remembers s p span 0
    → Remembers t p span (own p.id r)
unfolding own calm
Run-Remembers p span Run.done u small h = h
Run-Remembers p span (Run.more r step) u small h =
    Step-Remembers p span (own p.id r) step (ground arith) small
      (Run-Remembers p span r (ground arith) (omega arith) h)
