-- ===== src/Server/Producers/Steps.antt =====
-- picomq/pico-server/src/producers.rs, as service.rs calls it: what the owner of a stream does with its
-- producers between one load and the next.
use picomq.Prelude.{ℕ, ◌≡◌, Option, some, bytes_ord, ℤ, Text}
use picomq.OrdMap.{get}
use picomq.Server.Producers.State.{
  Producers, Session, Producer, NumericProducer, ProducerDecision, ok, accepted, admit_numeric,
  record_numeric, establish, record_http, note_appended, decide,
}
use picomq.Server.Producers.State.Expiry.{expire, Header, fold_header}

abbrev pub request : Text → Session → ℕ → Producer
request producer_id session seq = record {
  producer_id = producer_id;
  epoch = session.epoch;
  seq = seq;
}

-- `numeric` is a Kafka batch that is admitted and lands; `asked` is any other admission, which may
-- refuse the batch or answer a duplicate. `served` is an HTTP append that is accepted in its session.
-- `replayed` is one header of a batch that `replay` reads from the log.
pub data Step : Producers → Producers → Type 0 where
  numeric :
      (s : Producers) (p : NumericProducer) (record_count base_offset : ℕ) (now_ms last_seq : ℤ)
      → (admit_numeric s (some p) record_count now_ms).0 ≡ ok (accepted (some (p, last_seq)))
      → Step s (record_numeric s (some (p, last_seq)) base_offset now_ms)
  asked :
      (s : Producers) (p : Option NumericProducer) (record_count : ℕ) (now_ms : ℤ)
      → Step s (admit_numeric s p record_count now_ms).1
  established :
      (s : Producers) (producer_id : Text) (session : Session) (now_ms : ℤ)
      → Step s (establish s producer_id session now_ms)
  served :
      (s : Producers) (producer_id : Text) (session : Session) (seq : ℕ) (now_ms : ℤ)
      → get producer_id s.sessions ≡ some session
      → decide s (request producer_id session seq) ≡ ProducerDecision.accepted session.epoch seq
      → Step s (record_http s session seq now_ms)
  expired : (s : Producers) (now_ms : ℤ) → Step s (expire s now_ms).1
  noted :
      (s : Producers) (base_offset next_offset : ℕ)
      → Step s (note_appended s base_offset next_offset)
  replayed : (s : Producers) (header : Header) (now_ms : ℤ) → Step s (fold_header now_ms s header)

pub data Run (s : Producers) : Producers → Type 0 where
  done : Run s s
  more : {t u : Producers} → Run s t → Step t u → Run s u
