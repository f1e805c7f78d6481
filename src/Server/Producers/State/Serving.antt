-- ===== src/Server/Producers/State/Serving.antt =====
-- picomq/pico-server/src/producers.rs: what other steps leave of an HTTP session.
use picomq.Prelude.{
  ℕ, ◌≡◌, refl, sym, ◌∙◌, Bool, true, false, not, Option, none, some, nat_ord, int_ord, bytes_ord,
  ◌==◌, ℤ, arith, Bool-cases, inl, inr, Text, compare_refl, any, is_some, ap,
}
use picomq.OrdMap.{get, contains_key, iter}
use picomq.Server.Producers.State.{
  Producers, Tracked, http, kafka, Session, Producer, NumericProducer, ProducerDecision, accepted,
  decide, in_session, http_seq, expected_after, record_numeric, touch, answer,
}
use picomq.Server.Producers.Kafka
use picomq.Server.Producers.Kafka.{validate_numeric}
use picomq.Server.Producers.State.Expiry.{expire, fold_header, fold_producer, is_session}
use picomq.Server.Producers.Steps.{request}
use picomq.Server.Producers.Expired.{expire-sessions}
use picomq.Server.Producers.Kept.{get-insert_other, get-expire, get-fold_producer}

abbrev pub is_accepted : ProducerDecision → Bool
is_accepted (accepted _ _) = true
is_accepted _ = false

abbrev pub header_apart : ℤ → Option NumericProducer → Bool
header_apart id none = true
header_apart id (some q) = not (q.id == id)

-- Where the producer is in a session at an epoch, the decision is that on the last sequence.
pub decide-in_session :
    (s : Producers) (producer_id : Text) (session : Session) (seq : ℕ)
    → get producer_id s.sessions ≡ some session
    → decide s (request producer_id session seq)
      ≡ in_session (request producer_id session seq) (http_seq (get session.id s.tracked))
unfolding decide
decide-in_session s producer_id session seq h =
    rw (h, decide) (rw (compare_refl session.epoch) refl)

pub accepted-expected :
    (p : Producer) (last : Option ℕ)
    → is_accepted (in_session p last) ≡ true
    → p.seq ≡ expected_after last
accepted-expected p none h = ground arith
accepted-expected p (some l) h = ground arith

-- The producer is in the session, which expects the sequence `n`.
pub record Serving (s : Producers) (producer_id : Text) (session : Session) (n : ℕ) : Type 0 where
  pub there : get producer_id s.sessions ≡ some session
  pub next : expected_after (http_seq (get session.id s.tracked)) ≡ n

pub Serving-frame :
    (s t : Producers) (producer_id : Text) (session : Session) (n : ℕ)
    → get producer_id t.sessions ≡ get producer_id s.sessions
    → get session.id t.tracked ≡ get session.id s.tracked
    → Serving s producer_id session n
    → Serving t producer_id session n
Serving-frame s t producer_id session n e1 e2 h = record {
  there = e1 ∙ h.there;
  next = rw e2 h.next;
}

touch-Serving :
    (s : Producers) (producer_id : Text) (session : Session) (n : ℕ) (id now_ms : ℤ)
    (o : Option Tracked)
    → (id == session.id) ≡ false
    → Serving s producer_id session n
    → Serving (touch s id now_ms o) producer_id session n
touch-Serving s producer_id session n id now_ms none e h = h
touch-Serving s producer_id session n id now_ms (some (http x)) e h = h
touch-Serving s producer_id session n id now_ms (some (kafka k)) e h =
    Serving-frame s (touch s id now_ms (some (kafka k))) producer_id session n refl
      (get-insert_other session.id id _ s e) h

pub answer-Serving :
    (s : Producers) (producer_id : Text) (session : Session) (n : ℕ) (q : NumericProducer)
    (last_seq now_ms : ℤ) (d : Kafka.Decision)
    → (q.id == session.id) ≡ false
    → Serving s producer_id session n
    → Serving (answer s q last_seq now_ms d).1 producer_id session n
unfolding answer
answer-Serving s producer_id session n q last_seq now_ms Kafka.accepted e h = h
answer-Serving s producer_id session n q last_seq now_ms (Kafka.duplicate base_offset) e h =
    touch-Serving s producer_id session n q.id now_ms (get q.id s.tracked) e h
answer-Serving s producer_id session n q last_seq now_ms (Kafka.out_of_order x y) e h = h
answer-Serving s producer_id session n q last_seq now_ms (Kafka.fenced x) e h = h

pub fold_producer-sessions :
    (s : Producers) (q : NumericProducer) (record_count base_offset : ℕ) (now_ms : ℤ)
    (o : Option Tracked)
    → (fold_producer s q record_count base_offset now_ms o).sessions ≡ s.sessions
unfolding fold_producer record_numeric
fold_producer-sessions s q record_count base_offset now_ms (some (http h)) = refl
fold_producer-sessions s q record_count base_offset now_ms none =
    elim (Bool-cases (any (is_session q.id) (iter s.sessions))) [
      | inl c ↦ rw c refl
      | inr c ↦ rw c refl
    ]
fold_producer-sessions s q record_count base_offset now_ms (some (kafka k)) =
    elim (Bool-cases (any (is_session q.id) (iter s.sessions))) [
      | inl c ↦ rw c refl
      | inr c ↦ rw c refl
    ]

pub fold_header-Serving :
    (s : Producers) (producer_id : Text) (session : Session) (n record_count base_offset : ℕ)
    (now_ms : ℤ) (o : Option NumericProducer)
    → header_apart session.id o ≡ true
    → Serving s producer_id session n
    → Serving
        (fold_header now_ms s
          (record { base_offset = base_offset; record_count = record_count; producer = o }))
        producer_id
        session
        n
fold_header-Serving s producer_id session n record_count base_offset now_ms none u h = h
fold_header-Serving s producer_id session n record_count base_offset now_ms (some q) u h =
    Serving-frame s (fold_producer s q record_count base_offset now_ms (get q.id s.tracked))
      producer_id session n
      (ap (get producer_id)
        (fold_producer-sessions s q record_count base_offset now_ms (get q.id s.tracked)))
      (get-fold_producer session.id s q record_count base_offset now_ms (get q.id s.tracked)
        (ground arith))
      h

pub expire-Serving :
    (s : Producers) (producer_id : Text) (session : Session) (n : ℕ) (now_ms : ℤ)
    → contains_key producer_id (expire s now_ms).1.sessions ≡ true
    → Serving s producer_id session n
    → Serving (expire s now_ms).1 producer_id session n
expire-Serving s producer_id session n now_ms u h =
    kept (get producer_id (expire s now_ms).1.sessions) refl u
  where
    kept :
        (o : Option Session)
        → get producer_id (expire s now_ms).1.sessions ≡ o
        → is_some o ≡ true
        → Serving (expire s now_ms).1 producer_id session n
    kept none e q = cc
    kept (some left) e q =
        let (old, tracked, _) = expire-sessions s now_ms producer_id left e in
        let same : left ≡ session = cc (old, h.there) in
        Serving-frame s (expire s now_ms).1 producer_id session n (e ∙ sym old)
          (get-expire session.id s now_ms (rw same at tracked)) h
