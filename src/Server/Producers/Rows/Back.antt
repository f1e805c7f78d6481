-- ===== src/Server/Producers/Rows/Back.antt =====
-- picomq/pico-server/src/producers.rs: the rows are read back as they were written.
use picomq.Prelude.{
  ℕ, ◌%◌, ◌≤◌, ◌≡◌, refl, Option, none, some, List, [], ◌∷◌, int_ord, ℤ, length, All, Text, arith,
}
use picomq.OrdMap.{iter}
use picomq.OrdMap.Refill.{refill-iter}
use picomq.Wire.{ok, IsI32, IsI64, u32_mod}
use picomq.Wire.Reads.{Reads, Reads-bind, Reads-map, Reads-last, Reads-pure, Reads-eq}
use picomq.Server.Codec.{put_u32, get_u32, get_u8}
use picomq.Server.Codec.Fields.{
  IsU32, IsU64, IsI16, IsStr, FitsU64, get_u8-Reads, get_u32-Reads, get_u64-Reads, get_i16-Reads,
  get_i32-Reads, get_i64-Reads, get_str-Reads, get_opt_u64-Reads, expect_version-Reads,
  expect_end-ok, All-Reads,
}
use picomq.Server.Producers.Kafka.{Span}
use picomq.Server.Producers.Ledger.{Ledger}
use picomq.Server.Producers.State.{Session, Tracked, kafka, http, Producers}
use picomq.Server.Producers.Rows.{
  encode_session, read_session, decode_session, put_span, put_tracked, put_entry, checkpoint,
  get_span, tracked_of, get_entry, read_checkpoint, decode_checkpoint, put_durable, put_pending,
  encode_stream_seq, durable_of, get_durable, get_pending, read_stream_seq, decode_stream_seq,
}

-- A session whose fields fit their types is decoded from its row to itself.
pub decode_session-encode_session :
    (s : Session) → IsU64 s.epoch → IsI64 s.id → decode_session (encode_session s) ≡ ok s
unfolding decode_session encode_session read_session
decode_session-encode_session s he hi = expect_end-ok (
    Reads-bind _ (expect_version-Reads 1)
      (Reads-bind _ (get_u64-Reads s.epoch he) (Reads-map _ (get_i64-Reads s.id hi))))

pub record IsSpan (s : Span) : Type 0 where
  pub first_seq : IsI32 s.first_seq
  pub last_seq : IsI32 s.last_seq
  pub base_offset : IsU64 s.base_offset

get_span-Reads : (s : Span) → IsSpan s → Reads get_span (put_span s) s
unfolding get_span put_span
get_span-Reads s h = Reads-bind _ (get_i32-Reads s.first_seq h.first_seq) (
    Reads-bind _ (get_i32-Reads s.last_seq h.last_seq)
      (Reads-map _ (get_u64-Reads s.base_offset h.base_offset)))

abbrev pub IsTracked : Tracked → Type 0
IsTracked (kafka k) =
    IsI16 k.epoch × IsI64 k.last_touched_ms × (length k.spans ≤ 5) × All IsSpan k.spans
IsTracked (http h) = IsI64 h.last_touched_ms × FitsU64 h.last_seq

get_few-Reads : (n : ℕ) → n ≤ 5 → Reads get_u8 ((n % 256) ∷ []) n
get_few-Reads n h = let e : n % 256 ≡ n = omega arith in rw e (get_u8-Reads n)

get_entry-Reads : (e : ℤ × Tracked) → IsI64 e.0 × IsTracked e.1 → Reads get_entry (put_entry e) e
unfolding get_entry put_tracked tracked_of
get_entry-Reads (id, kafka k) (hid, (he, ht, hn, hs)) = Reads-bind _ (get_i64-Reads id hid) (
    Reads-bind _ (get_u8-Reads 0) (
      Reads-map (λ (t : Tracked). (id, t))
        (Reads-bind _ (get_i16-Reads k.epoch he) (
          Reads-bind _ (get_i64-Reads k.last_touched_ms ht) (
            Reads-bind _ (get_few-Reads (length k.spans) hn)
              (Reads-map _ (All-Reads get_span put_span get_span-Reads k.spans hs)))))))
get_entry-Reads (id, http h) (hid, (ht, hl)) = Reads-bind _ (get_i64-Reads id hid) (
    Reads-bind _ (get_u8-Reads 1) (
      Reads-map (λ (t : Tracked). (id, t))
        (Reads-bind _ (get_i64-Reads h.last_touched_ms ht)
          (Reads-map _ (get_opt_u64-Reads h.last_seq hl)))))

get_len-Reads {ℓ} :
    {A : Type ℓ} (xs : List A)
    → IsU32 (length xs)
    → Reads get_u32 (put_u32 (length xs % u32_mod)) (length xs)
get_len-Reads xs h =
    let e : length xs % u32_mod ≡ length xs = omega arith in rw e (get_u32-Reads (length xs) h)

-- The checkpoint of producers whose fields fit their types, with at most five spans each, is decoded to
-- the offset that it covers and the producers that were tracked.
pub decode_checkpoint-checkpoint :
    (s : Producers)
    → IsU64 s.covered
    → IsU32 (length (iter s.tracked))
    → All (λ (e : ℤ × Tracked). IsI64 e.0 × IsTracked e.1) (iter s.tracked)
    → decode_checkpoint (checkpoint s) ≡ ok (s.covered, s.tracked)
unfolding decode_checkpoint checkpoint read_checkpoint
decode_checkpoint-checkpoint s hc hn h = expect_end-ok (
    Reads-eq
      (Reads-bind _ (expect_version-Reads 1) (
        Reads-bind _ (get_u64-Reads s.covered hc) (
          Reads-bind _ (get_len-Reads (iter s.tracked) hn)
            (Reads-map _ (All-Reads get_entry put_entry get_entry-Reads (iter s.tracked) h)))))
      (rw (refill-iter s.tracked) refl))

abbrev pub FitsStr : Option Text → Type 0
FitsStr none = Unit
FitsStr (some s) = IsStr s

get_durable-Reads : (o : Option Text) → FitsStr o → Reads get_durable (put_durable o) o
unfolding get_durable durable_of
get_durable-Reads none h = Reads-last _ (get_u8-Reads 0) (Reads-pure none)
get_durable-Reads (some s) h = Reads-bind _ (get_u8-Reads 1) (Reads-map some (get_str-Reads s h))

get_pending-Reads : (e : Text × ℕ) → IsStr e.0 × IsU64 e.1 → Reads get_pending (put_pending e) e
unfolding get_pending
get_pending-Reads e h = Reads-bind _ (get_str-Reads e.0 h.0) (Reads-map _ (get_u64-Reads e.1 h.1))

-- The row of a stream sequence whose values are strings and whose fields fit their types is decoded to
-- the epoch of its writer and the ledger, pending values included.
pub decode_stream_seq-encode_stream_seq :
    (epoch : ℕ) (l : Ledger Text)
    → IsU64 epoch
    → FitsStr l.durable
    → IsU32 (length l.pending)
    → All (λ (e : Text × ℕ). IsStr e.0 × IsU64 e.1) l.pending
    → decode_stream_seq (encode_stream_seq epoch l) ≡ ok (epoch, l)
unfolding decode_stream_seq encode_stream_seq read_stream_seq
decode_stream_seq-encode_stream_seq epoch l he hd hn h = expect_end-ok (
    Reads-bind _ (expect_version-Reads 1) (
      Reads-bind _ (get_u64-Reads epoch he) (
        Reads-bind _ (get_durable-Reads l.durable hd) (
          Reads-bind _ (get_len-Reads l.pending hn)
            (Reads-map _ (All-Reads get_pending put_pending get_pending-Reads l.pending h))))))
