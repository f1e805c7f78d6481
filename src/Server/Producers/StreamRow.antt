-- ===== src/Server/Producers/StreamRow.antt =====
-- picomq/pico-server/src/producers.rs: the stream sequence of a stream and its row, and the load of
-- the producers.
pub mod Handover
use picomq.Prelude.{
  ℕ, ◌+◌, ◌≡◌, Bool, true, false, not, Option, none, some, List, [], ◌∷◌, nat_ord, int_ord,
  bytes_ord, ◌==◌, ltb, leb, ℤ, if◌then◌else◌, map_or, map_option, Text, Bytes, drop, length,
  for_each,
}
use picomq.OrdMap.{OrdMap, insert, empty}
use picomq.Wire.{Outcome, ok, err, bind}
use picomq.Server.Error.{ServiceError, transferring, with_message}
use picomq.Server.Codec.{corrupt}
use picomq.Server.Producers.Ledger
use picomq.Server.Producers.Ledger.{Ledger, last, accept, confirm, settle, raise}
use picomq.Server.Producers.Rows.{
  decode_session, decode_checkpoint, encode_stream_seq, decode_stream_seq,
}
use picomq.Server.Producers.State.{Session, Tracked, StreamSeq, Producers}

abbrev pub moved : ServiceError
moved = with_message transferring none false

abbrev pub last_seq_of : StreamSeq → Option Text
last_seq_of q = last q.ledger

-- `and_then(|stream_seq| stream_seq.ledger.last())`
abbrev pub last_stream_seq : Option StreamSeq → Option Text
last_stream_seq none = none
last_stream_seq (some q) = last_seq_of q

unfoldable pub stream_seq_regressed : Producers → Text → Bool
stream_seq_regressed s seq = map_or false (λ (l : Text). leb seq l) (last_stream_seq s.stream_seq)

abbrev pub new_stream_seq : StreamSeq
new_stream_seq = record { ledger = record { durable = none; pending = [] }; written = none }

abbrev pub stream_seq_or_new : Option StreamSeq → StreamSeq
stream_seq_or_new none = new_stream_seq
stream_seq_or_new (some q) = q

abbrev pub with_ledger : StreamSeq → Ledger Text → StreamSeq
with_ledger q l = record q { ledger = l }

unfoldable pub accept_stream_seq : Producers → Text → Option ℕ → Bytes × Producers
unfolding accept encode_stream_seq
accept_stream_seq s seq landed =
    let q : StreamSeq = stream_seq_or_new s.stream_seq in
    let ledger : Ledger Text = accept q.ledger seq landed in
    (encode_stream_seq s.epoch ledger, record s { stream_seq = some (with_ledger q ledger) })

abbrev pub written_of : Option StreamSeq → Option Bytes
written_of none = none
written_of (some q) = q.written

unfoldable pub stream_seq_written : Producers → Option Bytes
stream_seq_written s = written_of s.stream_seq

unfoldable pub mark_stream_seq_written : Producers → Bytes → Producers
mark_stream_seq_written s bytes = record s {
  stream_seq = map_option (λ (q : StreamSeq). record q { written = some bytes }) s.stream_seq;
}

unfoldable pub confirm_stream_seq : Producers → ℕ → Producers
unfolding confirm
confirm_stream_seq s durable_end = record s {
  stream_seq =
      map_option (λ (q : StreamSeq). with_ledger q (confirm q.ledger durable_end)) s.stream_seq;
}

abbrev pub raise_to : Ledger Text → Option Text → Ledger Text
raise_to l none = l
raise_to l (some floor) = raise l floor

-- An earlier owner's row `theirs`, folded into the own ledger; `stored` is the row.
unfoldable pub merged :
    Producers → Bytes → Ledger Text → Option StreamSeq → Outcome ServiceError (Bytes × Producers)
unfolding raise last encode_stream_seq
merged s stored theirs none = err corrupt
merged s stored theirs (some q) =
    let ledger : Ledger Text = raise_to q.ledger (last theirs) in
    ok (
      encode_stream_seq s.epoch ledger,
      record s { stream_seq = some (record { ledger = ledger; written = some stored }) },
    )

unfoldable pub merge_stream_seq : Producers → Bytes → ℕ → Outcome ServiceError (Bytes × Producers)
unfolding merged settle decode_stream_seq
merge_stream_seq s stored durable_end =
    bind (decode_stream_seq stored) λ ((row_epoch, theirs) : ℕ × Ledger Text).
      if leb s.epoch row_epoch
      then err moved
      else merged s stored (settle theirs durable_end) s.stream_seq

-- What the engine's stream tells at the load, and the decoding of a session key (`hex::decode` and
-- the check for UTF-8), which is third-party code.
pub record Loading : Type 0 where
  pub epoch : ℕ
  pub confirm_offset : ℕ
  pub live_start_offset : ℕ
  pub producer_of_key : Text → Option Text

abbrev pub load_session :
    Loading → OrdMap Text Session → Text × Bytes → Outcome ServiceError (OrdMap Text Session)
load_session l sessions row = elim (l.producer_of_key row.0) [
  | none ↦ err corrupt
  | some producer_id ↦
      bind (decode_session row.1) λ (session : Session). ok (insert producer_id session sessions)
]

unfoldable pub load_sessions :
    Loading → OrdMap Text Session → List (Text × Bytes) → Outcome ServiceError (OrdMap Text Session)
unfolding decode_session
load_sessions l sessions [] = ok sessions
load_sessions l sessions (row ∷ rows) =
    bind (load_session l sessions row) λ (more : OrdMap Text Session). load_sessions l more rows

abbrev max_u64 : ℕ → ℕ → ℕ
max_u64 a b = if ltb a b then b else a

unfoldable pub load_checkpoint :
    Loading → Option Bytes → Outcome ServiceError (ℕ × OrdMap ℤ Tracked)
unfolding decode_checkpoint
load_checkpoint l none = ok (l.live_start_offset, empty)
load_checkpoint l (some bytes) =
    bind (decode_checkpoint bytes) λ ((covered, tracked) : ℕ × OrdMap ℤ Tracked).
      if leb covered l.confirm_offset
      then ok (max_u64 covered l.live_start_offset, tracked)
      else ok (l.live_start_offset, empty)

unfoldable pub load_stream_seq : Loading → Option Bytes → Outcome ServiceError (Option StreamSeq)
unfolding decode_stream_seq settle
load_stream_seq l none = ok none
load_stream_seq l (some bytes) =
    bind (decode_stream_seq bytes) λ ((row_epoch, ledger) : ℕ × Ledger Text).
      if ltb l.epoch row_epoch
      then err moved
      else ok (some (record { ledger = settle ledger l.confirm_offset; written = some bytes }))

unfoldable pub load :
    Loading → Option Bytes → List (Text × Bytes) → Option Bytes → Outcome ServiceError Producers
unfolding load_sessions load_checkpoint load_stream_seq
load l checkpoint sessions stream_seq =
    bind (load_sessions l empty sessions) λ (known : OrdMap Text Session).
      bind (load_checkpoint l checkpoint) λ ((covered, tracked) : ℕ × OrdMap ℤ Tracked).
        bind (load_stream_seq l stream_seq) λ (seq : Option StreamSeq). ok (record {
          epoch = l.epoch;
          covered = covered;
          tracked = tracked;
          sessions = known;
          stream_seq = seq;
        })
