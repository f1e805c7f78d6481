-- ===== src/Server/Producers/Rows.antt =====
-- picomq/pico-server/src/producers.rs: the rows that the producers of a stream are kept in.
pub mod Back
use picomq.Prelude.{
  ℕ, ◌%◌, ◌≡◌, Bool, Option, none, some, List, [], ◌∷◌, ◌++◌, nat_ord, int_ord, ◌==◌, ltb, ℤ,
  length, if◌then◌else◌, Text, Bytes,
}
use picomq.OrdMap.{OrdMap, iter}
use picomq.OrdMap.Refill.{refill}
use picomq.Wire.{Outcome, Reader, bind, ◌>>=◌, pure, failing, many, u32_mod}
use picomq.Wire.Reads.{join}
use picomq.Server.Error.{ServiceError}
use picomq.Server.Codec.{
  corrupt, put_u8, put_u32, put_u64, put_i16, put_i32, put_i64, put_str, put_opt_u64, get_u8,
  get_i16, get_i32, get_u32, get_i64, get_u64, get_str, get_opt_u64, expect_version, expect_end,
}
use picomq.Server.Producers.Kafka.{Kafka, Span}
use picomq.Server.Producers.Ledger.{Ledger}
use picomq.Server.Producers.State.{Session, Http, Tracked, kafka, http, Producers}

abbrev pub session_version : ℕ
session_version = 1

abbrev pub checkpoint_version : ℕ
checkpoint_version = 1

abbrev pub stream_seq_version : ℕ
stream_seq_version = 1

unfoldable pub encode_session : Session → Bytes
encode_session s = put_u8 session_version ++ (put_u64 s.epoch ++ put_i64 s.id)

unfoldable pub read_session : Reader ServiceError Session
unfolding expect_version get_u64 get_i64
read_session = expect_version session_version >>= λ _.
    get_u64 >>= λ epoch. get_i64 >>= λ id. pure (record { epoch = epoch; id = id })

unfoldable pub decode_session : Bytes → Outcome ServiceError Session
unfolding read_session expect_end
decode_session value = bind (read_session value) expect_end

unfoldable pub put_span : Span → Bytes
put_span s = put_i32 s.first_seq ++ (put_i32 s.last_seq ++ put_u64 s.base_offset)

unfoldable pub put_tracked : Tracked → Bytes
unfolding put_span put_opt_u64
put_tracked (kafka k) =
    put_u8 0
    ++ (put_i16 k.epoch
        ++ (put_i64 k.last_touched_ms ++ (put_u8 (length k.spans % 256) ++ join put_span k.spans)))
put_tracked (http h) = put_u8 1 ++ (put_i64 h.last_touched_ms ++ put_opt_u64 h.last_seq)

abbrev pub put_entry : ℤ × Tracked → Bytes
put_entry e = put_i64 e.0 ++ put_tracked e.1

unfoldable pub checkpoint : Producers → Bytes
unfolding put_tracked
checkpoint s =
    put_u8 checkpoint_version
    ++ (put_u64 s.covered
        ++ (put_u32 (length (iter s.tracked) % u32_mod) ++ join put_entry (iter s.tracked)))

unfoldable pub get_span : Reader ServiceError Span
unfolding get_i32 get_u64
get_span = get_i32 >>= λ first_seq. get_i32 >>= λ last_seq. get_u64 >>= λ base_offset.
    pure (record { first_seq = first_seq; last_seq = last_seq; base_offset = base_offset })

unfoldable pub tracked_of : ℕ → Reader ServiceError Tracked
unfolding get_i16 get_i64 get_u8 get_span get_opt_u64
tracked_of tag =
    if tag == 0
    then (get_i16 >>= λ epoch. get_i64 >>= λ last_touched_ms. get_u8 >>= λ span_count.
        many span_count get_span >>= λ spans.
        pure (kafka (record { epoch = epoch; spans = spans; last_touched_ms = last_touched_ms })))
    else if tag == 1
    then (get_i64 >>= λ last_touched_ms. get_opt_u64 >>= λ last_seq.
        pure (http (record { last_seq = last_seq; last_touched_ms = last_touched_ms })))
    else failing corrupt

unfoldable pub get_entry : Reader ServiceError (ℤ × Tracked)
unfolding get_i64 get_u8 tracked_of
get_entry = get_i64 >>= λ id. get_u8 >>= λ tag. tracked_of tag >>= λ entry. pure (id, entry)

unfoldable pub read_checkpoint : Reader ServiceError (ℕ × OrdMap ℤ Tracked)
unfolding expect_version get_u64 get_u32 get_entry
read_checkpoint = expect_version checkpoint_version >>= λ _. get_u64 >>= λ covered.
    get_u32 >>= λ n. many n get_entry >>= λ entries. pure (covered, refill entries)

unfoldable pub decode_checkpoint : Bytes → Outcome ServiceError (ℕ × OrdMap ℤ Tracked)
unfolding read_checkpoint expect_end
decode_checkpoint bytes = bind (read_checkpoint bytes) expect_end

abbrev pub put_durable : Option Text → Bytes
put_durable none = put_u8 0
put_durable (some value) = put_u8 1 ++ put_str value

abbrev pub put_pending : Text × ℕ → Bytes
put_pending e = put_str e.0 ++ put_u64 e.1

unfoldable pub encode_stream_seq : ℕ → Ledger Text → Bytes
unfolding put_str
encode_stream_seq epoch ledger =
    put_u8 stream_seq_version
    ++ (put_u64 epoch
        ++ (put_durable ledger.durable
            ++ (put_u32 (length ledger.pending % u32_mod) ++ join put_pending ledger.pending)))

unfoldable pub durable_of : ℕ → Reader ServiceError (Option Text)
unfolding get_str
durable_of tag = if tag == 0 then pure none else (get_str >>= λ value. pure (some value))

unfoldable pub get_durable : Reader ServiceError (Option Text)
unfolding get_u8 durable_of
get_durable = get_u8 >>= durable_of

unfoldable pub get_pending : Reader ServiceError (Text × ℕ)
unfolding get_str get_u64
get_pending = get_str >>= λ value. get_u64 >>= λ base_offset. pure (value, base_offset)

unfoldable pub read_stream_seq : Reader ServiceError (ℕ × Ledger Text)
unfolding expect_version get_u64 get_durable get_u32 get_pending
read_stream_seq = expect_version stream_seq_version >>= λ _. get_u64 >>= λ epoch.
    get_durable >>= λ durable. get_u32 >>= λ n.
    many n get_pending >>= λ pending. pure (epoch, record { durable = durable; pending = pending })

unfoldable pub decode_stream_seq : Bytes → Outcome ServiceError (ℕ × Ledger Text)
unfolding read_stream_seq expect_end
decode_stream_seq bytes = bind (read_stream_seq bytes) expect_end
