-- ===== src/Server/Producers/Tests.antt =====
-- The producers of a stream on a few batches, and the theorems on them.
use picomq.Prelude.{
  ℕ, ◌+◌, ◌%◌, ◌≤◌, ◌<◌, ◌≡◌, refl, true, none, some, [], ◌∷◌, nat_ord, int_ord, bytes_ord, pos,
  arith, ltb, length, range_from, if◌then◌else◌, Text,
}
use picomq.OrdMap.{get, insert, empty, iter, len, retain, scan}
use picomq.Wire.{Outcome, is_utf8, le, be}
use picomq.Wire
use picomq.Wire.Reads.{join}
use picomq.Server.Producers.Kafka.{Kafka, next_seq, validate_numeric}
use picomq.Server.Producers.Sequence.{next_seq-sum}
use picomq.Server.Producers.Window.{IsWindow}
use picomq.Server.Producers.Ledger.{Ledger, last, accept, settle}
use picomq.Server.Producers.Ledger.Settled.{settle-accept}
use picomq.Server.Producers.State.{
  Producers, kafka, Session, NumericProducer, accepted, duplicate, ok, admit_numeric,
  record_numeric, establish, record_http, decide, ProducerDecision,
}
use picomq.Server.Producers.State.Sessions.{apart, taken, serve-establish}
use picomq.Server.Producers.Refolded.{decide-fold}
use picomq.Server.Producers.State.Expiry.{
  Header, expire, expire_tracked, shrink, max_tracked, fold, fold_header, fold_producer,
}
use picomq.Server.Producers.Expired.{expire-le}
use picomq.Server.Producers.Landing.{own, calm}
use picomq.Server.Producers.Steps.{Step, Run, request}
use picomq.Server.Producers.Once.{admit_numeric-once}
use picomq.Server.Producers.Reachable.{replays_follow, Run-IsWindow}
use picomq.Server.Producers.Rows.{checkpoint, decode_checkpoint}
use picomq.Server.Producers.Rows.Back.{decode_checkpoint-checkpoint}
use picomq.Server.Producers.StreamRow.{
  Loading, load, load_sessions, load_checkpoint, load_stream_seq, accept_stream_seq,
  stream_seq_regressed,
}
use picomq.Server.Producers.StreamRow.Handover.{accepting, FitsLedger, load-regressed}

next_seq-sum_example :
    (next_seq (pos 2147483640) 10 ≡ pos ((2147483640 + 10) % 2147483648))
    × ((2147483640 + 10) % 2147483648 < 2147483648)
    × (next_seq (next_seq (pos 2147483640) 10) 5 ≡ next_seq (pos 2147483640) (10 + 5))
next_seq-sum_example = next_seq-sum 2147483640 10 5 (omega arith) (omega arith)

abbrev pub start : Producers
start = record { epoch = 3; covered = 0; tracked = empty; sessions = empty; stream_seq = none }

abbrev pub batch : NumericProducer
batch = record { id = pos 7; epoch = pos 0; first_seq = pos 0 }

abbrev pub next : NumericProducer
next = record { id = pos 7; epoch = pos 0; first_seq = pos 3 }

-- A batch of another producer in the log, and the next one of the same.
abbrev pub other : Header
other = record {
  base_offset = 90;
  record_count = 2;
  producer = some (record { id = pos 8; epoch = pos 2; first_seq = pos 0 });
}

abbrev pub next_header : Header
next_header = record { base_offset = 103; record_count = 2; producer = some next }

numeric_there : (get batch.id start.tracked ≡ none)
unfolding get empty
numeric_there = refl

admits : (admit_numeric start (some batch) 3 (pos 10)).0 ≡ ok (accepted (some (batch, pos 2)))
unfolding admit_numeric get empty
admits = refl

abbrev pub landed : Producers
landed = record_numeric start (some (batch, pos 2)) 100 (pos 10)

abbrev pub replays : Producers
replays = fold_header (pos 12) landed other

next_admits : (admit_numeric replays (some next) 2 (pos 14)).0 ≡ ok (accepted (some (next, pos 4)))
unfolding admit_numeric fold_producer record_numeric get insert iter empty
next_admits = refl

abbrev pub follows_on : Producers
follows_on = record_numeric replays (some (next, pos 4)) 103 (pos 14)

-- Another producer is replayed, the next batch lands, and expiry runs.
abbrev later : Run landed (expire follows_on (pos 20)).1
later =
    Run.more
      (Run.more (Run.more Run.done (Step.replayed landed other (pos 12)))
        (Step.numeric replays next 2 103 (pos 14) (pos 4) next_admits))
      (Step.expired follows_on (pos 20))

later-calm : calm batch later ≡ true
unfolding calm expire expire_tracked shrink fold_producer record_numeric get insert iter empty
    retain len scan
later-calm = refl

later_own : own batch.id later ≤ 4
unfolding own
later_own = omega arith

admit_numeric-once_example :
    (admit_numeric (expire follows_on (pos 20)).1 (some batch) 3 (pos 20)).0 ≡ ok (duplicate 100)
admit_numeric-once_example =
    admit_numeric-once start (expire follows_on (pos 20)).1 batch 3 100 (pos 10) (pos 10) (pos 20)
      (pos 2) later (rw numeric_there refl) admits later-calm later_own

abbrev pub window : Kafka
window = record {
  epoch = pos 0;
  spans =
      record { first_seq = pos 0; last_seq = pos 2; base_offset = 100 }
      ∷ record { first_seq = pos 3; last_seq = pos 4; base_offset = 103 }
      ∷ [];
  last_touched_ms = pos 14;
}

abbrev pub replayed_next : Producers
replayed_next = fold_header (pos 14) landed next_header

abbrev windowed : Run start replayed_next
windowed =
    Run.more (Run.more Run.done (Step.numeric start batch 3 100 (pos 10) (pos 2) admits))
      (Step.replayed landed next_header (pos 14))

windowed_follows : replays_follow windowed ≡ true
unfolding replays_follow record_numeric get insert empty validate_numeric
windowed_follows = refl

there : get (pos 7) replayed_next.tracked ≡ some (kafka window)
unfolding get insert empty iter record_numeric fold_producer next_seq
there = refl

Run-IsWindow_example : IsWindow window
Run-IsWindow_example =
    Run-IsWindow start replayed_next (pos 7) window windowed refl windowed_follows there

abbrev pub session : Session
session = record { epoch = 1; id = pos 9 }

-- "p"
abbrev pub name : Text
name = 112 ∷ []

abbrev pub opened : Producers
opened = establish start name session (pos 5)

abbrev pub first : Producers
first = fold_header (pos 6) (record_http opened session 0 (pos 5)) other

in_opened : get name opened.sessions ≡ some session
unfolding establish get insert empty
in_opened = refl

accepts_0 : decide opened (request name session 0) ≡ ProducerDecision.accepted 1 0
unfolding decide establish get insert empty
accepts_0 = refl

in_first : get name first.sessions ≡ some session
unfolding establish record_http fold_producer record_numeric get insert iter empty
in_first = refl

accepts_1 : decide first (request name session 1) ≡ ProducerDecision.accepted 1 1
unfolding decide establish record_http fold_producer record_numeric get insert iter empty
accepts_1 = refl

abbrev appends : Run opened (record_http first session 1 (pos 7))
appends =
    Run.more
      (Run.more (Run.more Run.done (Step.served opened name session 0 (pos 5) in_opened accepts_0))
        (Step.replayed (record_http opened session 0 (pos 5)) other (pos 6)))
      (Step.served first name session 1 (pos 7) in_first accepts_1)

appends_apart : apart name session appends ≡ true
unfolding apart
appends_apart = refl

appends-taken : length (taken name appends) < 18446744073709551616
unfolding taken
appends-taken = omega arith

serve-establish_example : taken name appends ≡ range_from 0 (length (taken name appends))
serve-establish_example =
    serve-establish start (record_http first session 1 (pos 7)) name session (pos 5) appends
      appends_apart appends-taken

decide-fold_example :
    decide
      (fold
        (record_http opened session 0 (pos 5))
        (some (
          record {
            base_offset = 100;
            record_count = 1;
            producer = some (record { id = pos 9; epoch = pos 0; first_seq = pos 0 });
          }
          ∷ []))
        (pos 8))
      (request name session (0 + 1))
    ≡ ProducerDecision.duplicate (0 + 1)
decide-fold_example =
    decide-fold opened name session 0 (pos 5) (pos 8)
      (record { id = pos 9; epoch = pos 0; first_seq = pos 0 }) 1 100 in_opened refl (omega arith)

expire-le_example : len (expire landed (pos 99999999)).1.tracked ≤ max_tracked
expire-le_example = expire-le landed (pos 99999999)

abbrev pub ledger : Ledger Text
ledger = record { durable = some (97 ∷ []); pending = (98 ∷ [], 10) ∷ [] }

settle-accept_example :
    (last (settle (accept ledger (99 ∷ []) (some 20)) 15)
      ≡ (if ltb {K = ℕ} 20 15 then some (99 ∷ []) else last (settle ledger 15)))
    × ((settle (accept ledger (99 ∷ []) (some 20)) 15).pending ≡ [])
settle-accept_example = settle-accept ledger (99 ∷ []) 20 15

entries_fit : length (iter landed.tracked) < 4294967296
unfolding iter insert empty record_numeric get
entries_fit = omega arith

decode_checkpoint-checkpoint_example :
    decode_checkpoint (checkpoint landed) ≡ Outcome.ok (landed.covered, landed.tracked)
unfolding iter insert empty record_numeric get
decode_checkpoint-checkpoint_example =
    decode_checkpoint-checkpoint landed (omega arith) entries_fit (
      (
        omega arith,
        (
          omega arith,
          omega arith,
          omega arith,
          (
            record { first_seq = omega arith; last_seq = omega arith; base_offset = omega arith },
            tt,
          ),
        ),
      ),
      tt,
    )

abbrev pub loading : Loading
loading = record {
  epoch = 4;
  confirm_offset = 50;
  live_start_offset = 0;
  producer_of_key = λ k. some k;
}

abbrev pub loaded : Producers
loaded = record {
  epoch = 4;
  covered = 0;
  tracked = empty;
  sessions = empty;
  stream_seq = some (record {
    ledger = record { durable = some (98 ∷ []); pending = [] };
    written = some (accept_stream_seq start (98 ∷ []) (some 10)).0;
  });
}

loads :
    load loading none [] (some (accept_stream_seq start (98 ∷ []) (some 10)).0) ≡ Outcome.ok loaded
unfolding load load_sessions load_checkpoint load_stream_seq accept_stream_seq settle Wire.◌>>=◌
    Wire.many Wire.chunk Wire.pure Wire.reject_if Wire.be Wire.be_value is_utf8 join
loads = refl

fits : FitsLedger (accepting start (98 ∷ []) 10)
unfolding accept is_utf8
fits = record {
  durable = tt;
  count = omega arith;
  pending = (((omega arith, refl), omega arith), tt);
}

load-regressed_example : stream_seq_regressed loaded (97 ∷ []) ≡ true
load-regressed_example =
    load-regressed start loaded (98 ∷ []) (97 ∷ []) 10 loading none [] (omega arith) (omega arith)
      fits (omega arith) loads refl
