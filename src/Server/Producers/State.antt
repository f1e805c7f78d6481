-- ===== src/Server/Producers/State.antt =====
-- picomq/pico-server/src/producers.rs: the producers of one stream, as the owner at one epoch knows
-- them.
pub mod Serving
pub mod Sessions
pub mod Expiry
use picomq.Prelude.{
  ℕ, zero, suc, ◌+◌, ◌-◌, ◌/◌, ◌≡◌, Bool, true, false, not, ◌&&◌, ◌||◌, Option, none, some, List,
  [], ◌∷◌, nat_ord, int_ord, bytes_ord, ◌==◌, ltb, leb, ℤ, pos, if◌then◌else◌, map, map_or, keep_if,
  any, for_each, is_empty, is_some, length, add_u64, as_i64, as_u64, sub_u64, Text, Bytes,
}
use picomq.OrdMap.{OrdMap, get, insert, remove, iter, len, empty, contains_key}
use picomq.Server.Error.{ServiceError, fenced_at, gap_between}
use picomq.Server.Producers.Kafka
use picomq.Server.Producers.Kafka.{Kafka, Span, new_kafka, record_span, next_seq, validate_numeric}
use picomq.Server.Producers.Ledger
use picomq.Server.Producers.Ledger.{Ledger}

-- An HTTP producer's current epoch and the numeric id its batches carry.
pub record Session : Type 0 where
  pub epoch : ℕ
  pub id : ℤ

pub record Http : Type 0 where
  pub last_seq : Option ℕ
  pub last_touched_ms : ℤ

pub data Tracked : Type 0 where
  kafka : Kafka → Tracked
  http : Http → Tracked

unfoldable pub last_touched : Tracked → ℤ
last_touched (kafka k) = k.last_touched_ms
last_touched (http h) = h.last_touched_ms

pub record StreamSeq : Type 0 where
  pub ledger : Ledger Text
  pub written : Option Bytes

pub record Producers : Type 0 where
  pub epoch : ℕ
  pub covered : ℕ
  pub tracked : OrdMap ℤ Tracked
  pub sessions : OrdMap Text Session
  pub stream_seq : Option StreamSeq

pub record Producer : Type 0 where
  pub producer_id : Text
  pub epoch : ℕ
  pub seq : ℕ

pub record NumericProducer : Type 0 where
  pub id : ℤ
  pub epoch : ℤ
  pub first_seq : ℤ

pub data ProducerDecision : Type 0 where
  accepted : (epoch seq : ℕ) → ProducerDecision
  duplicate : (last_seq : ℕ) → ProducerDecision
  stale_epoch : (current_epoch : ℕ) → ProducerDecision
  invalid_epoch_seq : ProducerDecision
  sequence_gap : (expected received : ℕ) → ProducerDecision

unfoldable pub new_epoch : Producer → ProducerDecision
new_epoch p = if not (p.seq == 0) then invalid_epoch_seq else accepted p.epoch p.seq

-- The last sequence of the session's HTTP entry; any other entry has none.
abbrev pub http_seq : Option Tracked → Option ℕ
http_seq (some (http h)) = h.last_seq
http_seq (some (kafka _)) = none
http_seq none = none

abbrev pub expected_after : Option ℕ → ℕ
expected_after none = 0
expected_after (some last) = add_u64 last 1

abbrev pub in_session : Producer → Option ℕ → ProducerDecision
in_session p last_seq = elim last_seq [
  | some last ↦
      if leb p.seq last
      then duplicate last
      else if p.seq == expected_after (some last)
      then accepted p.epoch p.seq
      else sequence_gap (expected_after (some last)) p.seq
  | none ↦ if p.seq == 0 then accepted p.epoch p.seq else sequence_gap 0 p.seq
]

unfoldable pub decide : Producers → Producer → ProducerDecision
unfolding new_epoch
decide s p = elim (get p.producer_id s.sessions) [
  | none ↦ new_epoch p
  | some session ↦
      if ltb p.epoch session.epoch
      then stale_epoch session.epoch
      else if ltb session.epoch p.epoch
      then new_epoch p
      else in_session p (http_seq (get session.id s.tracked))
]

abbrev pub forget : Option Session → OrdMap ℤ Tracked → OrdMap ℤ Tracked
forget none tracked = tracked
forget (some previous) tracked = remove previous.id tracked

-- A producer's new epoch. The previous epoch's id is forgotten with it.
unfoldable pub establish : Producers → Text → Session → ℤ → Producers
establish s producer_id session now_ms = record s {
  sessions = insert producer_id session s.sessions;
  tracked =
      insert session.id (http (record { last_seq = none; last_touched_ms = now_ms }))
        (forget (get producer_id s.sessions) s.tracked);
}

unfoldable pub record_http : Producers → Session → ℕ → ℤ → Producers
record_http s session seq now_ms = record s {
  tracked =
      insert session.id (http (record { last_seq = some seq; last_touched_ms = now_ms })) s.tracked;
}

unfoldable pub replay_needed : Producers → Option NumericProducer → ℕ → Bool
replay_needed s producer durable_end =
    (is_some producer || not (len s.tracked == 0) || not (len s.sessions == 0))
    && ltb s.covered durable_end

pub data Admission : Type 0 where
  accepted : Option (NumericProducer × ℤ) → Admission
  duplicate : (base_offset : ℕ) → Admission

pub data Admitted : Type 0 where
  ok : Admission → Admitted
  err : ServiceError → Admitted

abbrev pub known_kafka : Option Tracked → Option Kafka
known_kafka (some (kafka k)) = some k
known_kafka (some (http _)) = none
known_kafka none = none

-- A duplicate is a sign of life.
abbrev pub touch : Producers → ℤ → ℤ → Option Tracked → Producers
touch s id now_ms (some (kafka k)) = record s {
  tracked = insert id (kafka (record k { last_touched_ms = now_ms })) s.tracked;
}
touch s id now_ms (some (http _)) = s
touch s id now_ms none = s

-- The last sequence of a batch of `record_count` records.
abbrev pub batch_end : ℤ → ℕ → ℤ
batch_end first_seq record_count = next_seq first_seq (record_count - 1)

unfoldable pub answer : Producers → NumericProducer → ℤ → ℤ → Kafka.Decision → Admitted × Producers
answer s p last_seq now_ms Kafka.accepted = (ok (accepted (some (p, last_seq))), s)
answer s p last_seq now_ms (Kafka.duplicate base_offset) =
    (ok (duplicate base_offset), touch s p.id now_ms (get p.id s.tracked))
answer s p last_seq now_ms (Kafka.fenced current_epoch) =
    (err (fenced_at (as_u64 current_epoch)), s)
answer s p last_seq now_ms (Kafka.out_of_order expected received) =
    (err (gap_between (as_u64 expected) (as_u64 received)), s)

unfoldable pub admit_numeric : Producers → Option NumericProducer → ℕ → ℤ → Admitted × Producers
unfolding answer validate_numeric next_seq
admit_numeric s none record_count now_ms = (ok (accepted none), s)
admit_numeric s (some p) record_count now_ms =
    let last_seq = batch_end p.first_seq record_count in
    answer s p last_seq now_ms
      (validate_numeric (known_kafka (get p.id s.tracked)) p.epoch p.first_seq last_seq)

abbrev pub entry_or_new : Option Tracked → Tracked
entry_or_new (some t) = t
entry_or_new none = kafka new_kafka

abbrev pub recorded : Tracked → ℤ → Span → ℤ → Tracked
recorded (kafka k) epoch span now_ms = kafka (record_span k epoch span now_ms)
recorded (http h) epoch span now_ms = http h

unfoldable pub record_numeric : Producers → Option (NumericProducer × ℤ) → ℕ → ℤ → Producers
unfolding record_span
record_numeric s none base_offset now_ms = s
record_numeric s (some (p, last_seq)) base_offset now_ms =
    let span : Span = record {
      first_seq = p.first_seq;
      last_seq = last_seq;
      base_offset = base_offset;
    } in
    record s {
      tracked =
          insert p.id (recorded (entry_or_new (get p.id s.tracked)) p.epoch span now_ms) s.tracked;
    }

-- A batch landed at `base_offset`.
unfoldable pub note_appended : Producers → ℕ → ℕ → Producers
note_appended s base_offset next_offset =
    if s.covered == base_offset then record s { covered = next_offset } else s

abbrev pub checkpoint_interval : ℕ
checkpoint_interval = 4096

unfoldable pub checkpoint_due : Producers → ℕ → Bool
checkpoint_due s covered_before =
    not (len s.tracked == 0)
    && not (covered_before / checkpoint_interval == s.covered / checkpoint_interval)
