-- ===== src/Server/Producers/Reachable.antt =====
-- picomq/pico-server/src/producers.rs: the producers of a stream through the life of its owner.
use picomq.Prelude.{
  ℕ, ◌≡◌, refl, Option, none, some, nat_ord, int_ord, bytes_ord, ◌==◌, ℤ, arith, Bool-cases, inl,
  inr, Bool, true, false, any, ◌&&◌,
}
use picomq.OrdMap.{OrdMap, get, insert, remove, empty, get-insert, get-remove, get-empty, iter}
use picomq.Server.Producers.Kafka
use picomq.Server.Producers.Kafka.{
  Kafka, Span, validate_numeric, last_span, seq_after, from_zero, new_kafka,
}
use picomq.Server.Producers.Window.{IsWindow, accepted-follows, record_span-IsWindow, span_of}
use picomq.Server.Producers.State.{
  Producers, Tracked, kafka, http, Session, NumericProducer, admit_numeric, record_numeric,
  establish, record_http, forget, touch, answer, known_kafka, entry_or_new, recorded, batch_end,
}
use picomq.Server.Producers.State.Expiry.{is_session, fold_header, fold_producer}
use picomq.Server.Producers.Expired.{expire-tracked}
use picomq.Server.Producers.Once.{admit_numeric-accepted}
use picomq.Server.Producers.Kept.{note_appended-tracked}
use picomq.Server.Producers.Steps.{Step, Run}

-- The header's batch goes behind the window that is there: a Kafka producer's is one that an admission
-- would accept.
abbrev pub is_accepted : Kafka.Decision → Bool
is_accepted Kafka.accepted = true
is_accepted _ = false

abbrev pub follows : Option Tracked → NumericProducer → ℕ → Bool
follows (some (http _)) q record_count = true
follows entry q record_count =
    is_accepted (
      validate_numeric (known_kafka entry) q.epoch q.first_seq (batch_end q.first_seq record_count))

abbrev pub header_follows : Producers → ℕ → Option NumericProducer → Bool
header_follows s record_count none = true
header_follows s record_count (some q) = follows (get q.id s.tracked) q record_count

abbrev pub step_follows : {s t : Producers} → Step s t → Bool
step_follows (Step.replayed s header now_ms) = header_follows s header.record_count header.producer
step_follows _ = true

unfoldable pub replays_follow : {s t : Producers} → Run s t → Bool
replays_follow Run.done = true
replays_follow (Run.more r step) = replays_follow r && step_follows step

abbrev pub Windowed : Tracked → Type 0
Windowed (kafka k) = IsWindow k
Windowed (http _) = Unit

abbrev pub Each : OrdMap ℤ Tracked → Type 0
Each m = (id : ℤ) (t : Tracked) → get id m ≡ some t → Windowed t

Each-insert :
    (j : ℤ) (u : Tracked) (m : OrdMap ℤ Tracked) → Windowed u → Each m → Each (insert j u m)
Each-insert j u m w h id t e = elim (Bool-cases (id == j)) [
  | inl c ↦ let same : u ≡ t = some_inj (rw (get-insert id j u m, c) at e) in rw same at w
  | inr c ↦ h id t (rw (get-insert id j u m, c) at e)
]
  where
    some_inj : some u ≡ some t → u ≡ t
    some_inj q = cc

Each-remove : (j : ℤ) (m : OrdMap ℤ Tracked) → Each m → Each (remove j m)
Each-remove j m h id t e = elim (Bool-cases (id == j)) [
  | inl c ↦ absurd (nothing (rw (get-remove id j m, c) at e))
  | inr c ↦ h id t (rw (get-remove id j m, c) at e)
]
  where
    nothing : none ≡ some t → ⊥
    nothing q = cc

Each-forget : (o : Option Session) (m : OrdMap ℤ Tracked) → Each m → Each (forget o m)
Each-forget none m h = h
Each-forget (some previous) m h = Each-remove previous.id m h

Each-touch :
    (s : Producers) (id now_ms : ℤ) (o : Option Tracked)
    → get id s.tracked ≡ o
    → Each s.tracked
    → Each (touch s id now_ms o).tracked
Each-touch s id now_ms none e h = h
Each-touch s id now_ms (some (http x)) e h = h
Each-touch s id now_ms (some (kafka k)) e h =
    let w : IsWindow k = h id (kafka k) e in
    Each-insert id (kafka (record k { last_touched_ms = now_ms })) s.tracked
      (record { chain = w.chain; short = w.short }) h

new-IsWindow : IsWindow new_kafka
new-IsWindow = record { chain = tt; short = omega arith }

recorded-Windowed :
    (o : Option Tracked) (epoch first_seq last_seq now_ms : ℤ) (base_offset : ℕ)
    → ((t : Tracked) → o ≡ some t → Windowed t)
    → validate_numeric (known_kafka o) epoch first_seq last_seq ≡ Kafka.accepted
    → Windowed (recorded (entry_or_new o) epoch (span_of first_seq last_seq base_offset) now_ms)
unfolding validate_numeric last_span
recorded-Windowed none epoch first_seq last_seq now_ms base_offset w h =
    record_span-IsWindow new_kafka epoch first_seq last_seq now_ms base_offset new-IsWindow
      (elim (Bool-cases (epoch == new_kafka.epoch)) [
        | inl c ↦ rw c (inl refl)
        | inr c ↦ rw c (inl refl)
      ])
recorded-Windowed (some (http x)) epoch first_seq last_seq now_ms base_offset w h = tt
recorded-Windowed (some (kafka k)) epoch first_seq last_seq now_ms base_offset w h =
    record_span-IsWindow k epoch first_seq last_seq now_ms base_offset (w (kafka k) refl)
      (accepted-follows k epoch first_seq last_seq h).0

answer-Each :
    (s : Producers) (p : NumericProducer) (last_seq now_ms : ℤ) (d : Kafka.Decision)
    → Each s.tracked
    → Each (answer s p last_seq now_ms d).1.tracked
unfolding answer
answer-Each s p last_seq now_ms Kafka.accepted h = h
answer-Each s p last_seq now_ms (Kafka.duplicate base_offset) h =
    Each-touch s p.id now_ms (get p.id s.tracked) refl h
answer-Each s p last_seq now_ms (Kafka.out_of_order x y) h = h
answer-Each s p last_seq now_ms (Kafka.fenced x) h = h

is_accepted-eq : (d : Kafka.Decision) → is_accepted d ≡ true → d ≡ Kafka.accepted
is_accepted-eq Kafka.accepted h = refl
is_accepted-eq (Kafka.duplicate b) h = cc
is_accepted-eq (Kafka.out_of_order x y) h = cc
is_accepted-eq (Kafka.fenced x) h = cc

recorded-Each :
    (s : Producers) (p : NumericProducer) (last_seq now_ms : ℤ) (base_offset : ℕ)
    → validate_numeric (known_kafka (get p.id s.tracked)) p.epoch p.first_seq last_seq
      ≡ Kafka.accepted
    → Each s.tracked
    → Each (record_numeric s (some (p, last_seq)) base_offset now_ms).tracked
unfolding record_numeric
recorded-Each s p last_seq now_ms base_offset verdict h =
    Each-insert p.id _ s.tracked
      (recorded-Windowed (get p.id s.tracked) p.epoch p.first_seq last_seq now_ms base_offset
        (h p.id) verdict)
      h

fold_producer-Each :
    (s : Producers) (q : NumericProducer) (record_count base_offset : ℕ) (now_ms : ℤ)
    (o : Option Tracked)
    → get q.id s.tracked ≡ o
    → follows o q record_count ≡ true
    → Each s.tracked
    → Each (fold_producer s q record_count base_offset now_ms o).tracked
unfolding fold_producer
fold_producer-Each s q record_count base_offset now_ms (some (http x)) e u h =
    Each-insert q.id (http _) s.tracked tt h
fold_producer-Each s q record_count base_offset now_ms none e u h =
    elim (Bool-cases (any (is_session q.id) (iter s.sessions))) [
      | inl c ↦ rw c (Each-insert q.id (http _) s.tracked tt h)
      | inr c ↦ rw c (
          recorded-Each s q (batch_end q.first_seq record_count) now_ms base_offset
            (rw e (is_accepted-eq _ u)) h)
    ]
fold_producer-Each s q record_count base_offset now_ms (some (kafka k)) e u h =
    elim (Bool-cases (any (is_session q.id) (iter s.sessions))) [
      | inl c ↦ rw c (Each-insert q.id (http _) s.tracked tt h)
      | inr c ↦ rw c (
          recorded-Each s q (batch_end q.first_seq record_count) now_ms base_offset
            (rw e (is_accepted-eq _ u)) h)
    ]

fold_header-Each :
    (s : Producers) (record_count base_offset : ℕ) (now_ms : ℤ) (o : Option NumericProducer)
    → header_follows s record_count o ≡ true
    → Each s.tracked
    → Each
        (fold_header now_ms s
          (record { base_offset = base_offset; record_count = record_count; producer = o })).tracked
fold_header-Each s record_count base_offset now_ms none u h = h
fold_header-Each s record_count base_offset now_ms (some q) u h =
    fold_producer-Each s q record_count base_offset now_ms (get q.id s.tracked) refl u h

Step-Each :
    {s t : Producers} (step : Step s t) → step_follows step ≡ true → Each s.tracked → Each t.tracked
unfolding admit_numeric establish record_http
Step-Each (Step.numeric s p record_count base_offset now_ms last_seq e) u h =
    let (verdict, _) = admit_numeric-accepted s p record_count now_ms last_seq e in
    recorded-Each s p last_seq now_ms base_offset verdict h
Step-Each (Step.asked s none record_count now_ms) u h = h
Step-Each (Step.asked s (some p) record_count now_ms) u h = answer-Each s p _ now_ms _ h
Step-Each (Step.established s producer_id session now_ms) u h =
    Each-insert session.id (http (record { last_seq = none; last_touched_ms = now_ms })) _ tt
      (Each-forget (get producer_id s.sessions) s.tracked h)
Step-Each (Step.served s producer_id session seq now_ms there e) u h =
    Each-insert session.id (http (record { last_seq = some seq; last_touched_ms = now_ms }))
      s.tracked tt h
Step-Each (Step.expired s now_ms) u h = λ id t e. h id t (expire-tracked s now_ms id t e).0
Step-Each (Step.noted s base_offset next_offset) u h =
    rw (note_appended-tracked s base_offset next_offset) h
Step-Each (Step.replayed s header now_ms) u h =
    fold_header-Each s header.record_count header.base_offset now_ms header.producer u h

Run-Each :
    {s t : Producers} (r : Run s t) → replays_follow r ≡ true → Each s.tracked → Each t.tracked
unfolding replays_follow
Run-Each Run.done u h = h
Run-Each (Run.more r step) u h = Step-Each step (ground arith) (Run-Each r (ground arith) h)

-- From an owner that starts with no tracked producers, through any steps of it in which each batch
-- that is replayed is one that an admission would accept (so none that the window has already), the
-- window of each Kafka producer holds at most five batches, each beginning at the sequence after the end
-- of the one before it.
pub Run-IsWindow :
    (s t : Producers) (id : ℤ) (k : Kafka) (r : Run s t)
    → s.tracked ≡ empty
    → replays_follow r ≡ true
    → get id t.tracked ≡ some (kafka k)
    → IsWindow k
Run-IsWindow s t id k r e u there = Run-Each r u (rw e nothing) id (kafka k) there
  where
    nothing : Each empty
    nothing j v q = absurd (gone (rw (get-empty j) at q))
      where
        gone : none ≡ some v → ⊥
        gone x = cc
