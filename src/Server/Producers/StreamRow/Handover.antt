-- ===== src/Server/Producers/StreamRow/Handover.antt =====
-- picomq/pico-server/src/producers.rs: what the next owner of a stream knows of its stream sequence.
use picomq.Prelude.{
  ℕ, ◌<◌, ◌≤◌, ◌≡◌, refl, true, false, Option, some, List, nat_ord, bytes_ord, ltb, leb, length,
  All, Text, Bytes, arith, int_ord,
}
use picomq.OrdMap.{empty}
use picomq.Wire.{ok, bind-ok}
use picomq.Server.Codec.Fields.{IsU32, IsU64, IsStr}
use picomq.Server.Producers.Ledger.{Ledger, accept, settle}
use picomq.Server.Producers.Ledger.Settled.{settle-accept}
use picomq.Server.Producers.Rows.{encode_stream_seq}
use picomq.Server.Producers.Rows.Back.{FitsStr, decode_stream_seq-encode_stream_seq}
use picomq.Server.Producers.State.{Producers}
use picomq.Server.Producers.StreamRow.{
  Loading, accept_stream_seq, stream_seq_or_new, load, load_stream_seq, load_sessions,
  load_checkpoint, stream_seq_regressed,
}

-- The values of a ledger are strings, and its offsets and length fit their types.
pub record FitsLedger (l : Ledger Text) : Type 0 where
  pub durable : FitsStr l.durable
  pub count : IsU32 (length l.pending)
  pub pending : All (λ (e : Text × ℕ). IsStr e.0 × IsU64 e.1) l.pending

abbrev pub accepting : Producers → Text → ℕ → Ledger Text
accepting a seq base_offset = accept (stream_seq_or_new a.stream_seq).ledger seq (some base_offset)

load_stream_seq-row :
    (epoch : ℕ) (ledger : Ledger Text) (l : Loading)
    → IsU64 epoch
    → epoch ≤ l.epoch
    → FitsLedger ledger
    → load_stream_seq l (some (encode_stream_seq epoch ledger))
      ≡ ok (
          some (record {
            ledger = settle ledger l.confirm_offset;
            written = some (encode_stream_seq epoch ledger);
          }))
unfolding load_stream_seq
load_stream_seq-row epoch ledger l he older fits =
    let not_newer : ltb l.epoch epoch ≡ false = ground arith in
    rw (decode_stream_seq-encode_stream_seq epoch ledger he fits.durable fits.count fits.pending)
      (rw not_newer refl)

load-stream_seq :
    (l : Loading) (checkpoint : Option Bytes) (sessions : List (Text × Bytes)) (row : Option Bytes)
    (b : Producers)
    → load l checkpoint sessions row ≡ ok b
    → load_stream_seq l row ≡ ok b.stream_seq
unfolding load
load-stream_seq l checkpoint sessions row b h =
    let (known, _, rest) = bind-ok (load_sessions l empty sessions) _ b h in
    let (covers, _, last_step) = bind-ok (load_checkpoint l checkpoint) _ b rest in
    let (seq, loaded, e) = bind-ok (load_stream_seq l row) _ b last_step in
    let same : seq ≡ b.stream_seq = ground arith in rw same at loaded

-- An owner accepts a stream sequence whose append begins at `base_offset`, and writes the row. A later
-- owner that loads the row when the log is durable past that offset has it as the last sequence, and
-- refuses it and every smaller one as a regression.
pub load-regressed :
    (a b : Producers) (seq again : Text) (base_offset : ℕ) (l : Loading) (checkpoint : Option Bytes)
    (sessions : List (Text × Bytes))
    → IsU64 a.epoch
    → a.epoch ≤ l.epoch
    → FitsLedger (accepting a seq base_offset)
    → base_offset < l.confirm_offset
    → load l checkpoint sessions (some (accept_stream_seq a seq (some base_offset)).0) ≡ ok b
    → leb again seq ≡ true
    → stream_seq_regressed b again ≡ true
unfolding accept_stream_seq stream_seq_regressed
load-regressed a b seq again base_offset l checkpoint sessions he older fits landed h below =
    let l' : Ledger Text = accepting a seq base_offset in
    let loaded = load-stream_seq l checkpoint sessions (some (encode_stream_seq a.epoch l')) b h in
    let row = load_stream_seq-row a.epoch l' l he older fits in
    let seq_of : b.stream_seq
        ≡ some (record {
          ledger = settle l' l.confirm_offset;
          written = some (encode_stream_seq a.epoch l');
        }) =
      cc (loaded, row) in
    let (kept, _) =
      settle-accept (stream_seq_or_new a.stream_seq).ledger seq base_offset l.confirm_offset in
    let durable : ltb base_offset l.confirm_offset ≡ true = ground arith in
    rw seq_of (rw (kept, durable) below)
