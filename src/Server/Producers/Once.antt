-- ===== src/Server/Producers/Once.antt =====
-- picomq/pico-server/src/producers.rs: a batch that a Kafka producer sends again is answered with the
-- offset at which it landed.
use picomq.Prelude.{ℕ, ◌≤◌, ◌≡◌, refl, sym, ◌∙◌, true, some, nat_ord, int_ord, ◌==◌, ℤ, eq_self}
use picomq.OrdMap.{get}
use picomq.Server.Producers.Kafka
use picomq.Server.Producers.Kafka.{
  Kafka, Span, new_kafka, record_span, find_span, same_seqs, validate_numeric,
}
use picomq.Server.Producers.Window.{span_of, validate_numeric-in_epoch}
use picomq.Server.Producers.Retried.{in_epoch-InWindow}
use picomq.Server.Producers.State.{
  Producers, NumericProducer, ok, accepted, duplicate, admit_numeric, record_numeric, known_kafka,
  batch_end, answer,
}
use picomq.Server.Producers.Landing.{own, calm, is_numeric, record_numeric-Remembers}
use picomq.Server.Producers.Kept.{Run-Remembers}
use picomq.Server.Producers.Steps.{Run}

answer-accepted :
    (s : Producers) (p : NumericProducer) (last_seq' now_ms last_seq : ℤ) (d : Kafka.Decision)
    → (answer s p last_seq' now_ms d).0 ≡ ok (accepted (some (p, last_seq)))
    → (d ≡ Kafka.accepted) × (last_seq ≡ last_seq')
unfolding answer
answer-accepted s p last_seq' now_ms last_seq Kafka.accepted h = (refl, cc)
answer-accepted s p last_seq' now_ms last_seq (Kafka.duplicate b) h = cc
answer-accepted s p last_seq' now_ms last_seq (Kafka.out_of_order x y) h = cc
answer-accepted s p last_seq' now_ms last_seq (Kafka.fenced x) h = cc

pub admit_numeric-accepted :
    (s : Producers) (p : NumericProducer) (record_count : ℕ) (now_ms last_seq : ℤ)
    → (admit_numeric s (some p) record_count now_ms).0 ≡ ok (accepted (some (p, last_seq)))
    → (validate_numeric (known_kafka (get p.id s.tracked)) p.epoch p.first_seq last_seq
        ≡ Kafka.accepted)
      × (last_seq ≡ batch_end p.first_seq record_count)
unfolding admit_numeric
admit_numeric-accepted s p record_count now_ms last_seq h =
    let last' : ℤ = batch_end p.first_seq record_count in
    let (verdict, e) =
      answer-accepted s p last' now_ms last_seq
        (validate_numeric (known_kafka (get p.id s.tracked)) p.epoch p.first_seq last') h in
    (rw e verdict, e)

-- A batch of a Kafka producer was accepted and landed at `base_offset`. Then the owner took any steps,
-- admissions, appends of sessions, expiries and replays among them, in which at most four batches of the
-- producer went into its window, all at the same epoch, no session took its id, and no expiry dropped it
-- (neither for a day's idleness nor as the stalest of more than 1024). Sent again, the batch is answered
-- as a duplicate of that offset, and is not accepted again.
pub admit_numeric-once :
    (s t : Producers) (p : NumericProducer) (record_count base_offset : ℕ)
    (sent_ms landed_ms again_ms last_seq : ℤ)
    (r : Run (record_numeric s (some (p, last_seq)) base_offset landed_ms) t)
    → is_numeric (get p.id s.tracked) ≡ true
    → (admit_numeric s (some p) record_count sent_ms).0 ≡ ok (accepted (some (p, last_seq)))
    → calm p r ≡ true
    → own p.id r ≤ 4
    → (admit_numeric t (some p) record_count again_ms).0 ≡ ok (duplicate base_offset)
unfolding admit_numeric answer
admit_numeric-once s t p record_count base_offset sent_ms landed_ms again_ms last_seq r n h u few =
    let (verdict, ends) = admit_numeric-accepted s p record_count sent_ms last_seq h in
    let span : Span = span_of p.first_seq last_seq base_offset in
    let m =
      Run-Remembers p span r u few
        (record_numeric-Remembers s p last_seq landed_ms base_offset n verdict) in
    let same : (p.epoch == m.entry.epoch) ≡ true = cc (m.epoch, eq_self p.epoch) in
    let found : validate_numeric (some m.entry) p.epoch p.first_seq last_seq
        ≡ Kafka.duplicate base_offset =
      validate_numeric-in_epoch m.entry p.epoch p.first_seq last_seq same
      ∙ in_epoch-InWindow span (own p.id r) m.entry m.window in
    rw (m.there, sym ends) (rw found refl)
