-- ===== src/Metadata/Codec/RoundTrip.antt =====
-- picomq/pico-metadata/src/codec.rs: what is encoded is decoded to itself, and what is not exactly an
-- encoding is refused.
use mathlib.Core.List.{append-nil}
use picomq.Prelude.{
  ℕ, ◌≡◌, ◌≢◌, refl, false, none, some, List, [], ◌∷◌, ◌++◌, length, All, Bytes, nat_ord, ◌==◌,
  arith,
}
use picomq.Engine.{StreamMetadata, StreamState}
use picomq.Wire.{ok, err, Reader, bind, ◌>>=◌, pure, IsI32, reject_if, failing}
use picomq.Wire.Reads.{Reads, Reads-bind, Reads-map, Reads-last, Reads-pure, Reads-reject_if}
use picomq.Metadata.Command.{MetadataCommand, MetadataResult, unit, id, count, stream, value}
use picomq.Metadata.Codec.Primitives.{
  CodecError, corrupt, unsupported_version, codec_version, check_version, ensure_drained,
}
use picomq.Metadata.Codec.Body.{put_command_body, get_command_body}
use picomq.Metadata.Codec.Whole.{
  encode_command, read_command, decode_command, encode_batch, read_batch, decode_batch, state_byte,
  put_stream, put_result, encode_result, state_of_byte, get_state, get_stream, result_of,
  read_result, decode_result,
}
use picomq.Metadata.Codec.Fields.{
  IsU32, IsU64, IsBlob, get_u8-Reads, get_u64-Reads, get_i32-Reads, get_blob-Reads, get_len-Reads,
  All-Reads,
}
use picomq.Metadata.Codec.Bodies.{IsCommand, get_command_body-Reads}

check_version-Reads : Reads check_version (codec_version ∷ []) tt
unfolding check_version
check_version-Reads = Reads-last _ (get_u8-Reads 0) (Reads-reject_if (unsupported_version 0) refl)

module _ {A : Type 0} {p : Reader CodecError A} {xs : Bytes} {a : A} where
  -- A whole encoding is read with nothing left; a byte behind it is refused.
  drained : Reads p xs a → bind (p xs) ensure_drained ≡ ok a
  drained r = rw (rw append-nil at (r.reads [])) (unfold ensure_drained in refl)

  trailing :
      (b : ℕ) (rest : Bytes)
      → Reads p xs a
      → bind (p (xs ++ (b ∷ rest))) ensure_drained ≡ err corrupt
  trailing b rest r = rw (r.reads (b ∷ rest)) (unfold ensure_drained in refl)

read_command-Reads : (c : MetadataCommand) → IsCommand c → Reads read_command (encode_command c) c
unfolding read_command encode_command
read_command-Reads c h = Reads-bind _ check_version-Reads (get_command_body-Reads c h)

read_batch-Reads :
    (cs : List MetadataCommand)
    → IsU32 (length cs)
    → All IsCommand cs
    → Reads read_batch (encode_batch cs) cs
unfolding read_batch encode_batch
read_batch-Reads cs fits h = Reads-bind _ check_version-Reads (
    Reads-bind _ (get_len-Reads cs fits)
      (All-Reads get_command_body put_command_body get_command_body-Reads cs h))

-- A command whose fields fit their types is decoded from its bytes to itself; with any byte behind
-- them it is refused.
pub decode_command-encode_command :
    (c : MetadataCommand) (b : ℕ) (rest : Bytes)
    → IsCommand c
    → (decode_command (encode_command c) ≡ ok c)
      × (decode_command (encode_command c ++ (b ∷ rest)) ≡ err corrupt)
unfolding decode_command
decode_command-encode_command c b rest h =
    (drained (read_command-Reads c h), trailing b rest (read_command-Reads c h))

-- A batch of fewer than 2^32 commands whose fields fit their types, an entry of the log, is decoded
-- from its bytes to the same commands in the same order; with any byte behind them it is refused.
pub decode_batch-encode_batch :
    (cs : List MetadataCommand) (b : ℕ) (rest : Bytes)
    → IsU32 (length cs)
    → All IsCommand cs
    → (decode_batch (encode_batch cs) ≡ ok cs)
      × (decode_batch (encode_batch cs ++ (b ∷ rest)) ≡ err corrupt)
unfolding decode_batch
decode_batch-encode_batch cs b rest fits h =
    (drained (read_batch-Reads cs fits h), trailing b rest (read_batch-Reads cs fits h))

-- A replica that decodes the same bytes gets the same commands: batches that encode alike are equal.
pub encode_batch-injective :
    (cs ds : List MetadataCommand)
    → IsU32 (length cs)
    → All IsCommand cs
    → IsU32 (length ds)
    → All IsCommand ds
    → encode_batch cs ≡ encode_batch ds
    → cs ≡ ds
encode_batch-injective cs ds fc hc fd hd e =
    let (a, _) = decode_batch-encode_batch cs 0 [] fc hc in
    let (b, _) = decode_batch-encode_batch ds 0 [] fd hd in cc (a, b, e)

pub record IsStream (m : StreamMetadata) : Type 0 where
  pub stream_id : IsU64 m.stream_id
  pub epoch : IsU64 m.epoch
  pub start_offset : IsU64 m.start_offset
  pub end_offset : IsU64 m.end_offset
  pub node_id : IsI32 m.node_id

abbrev pub IsResult : MetadataResult → Type 0
IsResult unit = Unit
IsResult (id i) = IsU64 i
IsResult (count n) = IsU64 n
IsResult (stream m) = IsStream m
IsResult (value none) = Unit
IsResult (value (some v)) = IsBlob v

state_of_byte-state_byte : (s : StreamState) → state_of_byte (state_byte s) ≡ pure s
unfolding state_of_byte
state_of_byte-state_byte s = ground arith

get_state-Reads : (s : StreamState) → Reads get_state (state_byte s ∷ []) s
unfolding get_state
get_state-Reads s =
    Reads-last _ (get_u8-Reads (state_byte s)) (rw (state_of_byte-state_byte s) (Reads-pure s))

get_stream-Reads : (m : StreamMetadata) → IsStream m → Reads get_stream (put_stream m) m
unfolding get_stream put_stream
get_stream-Reads m h = Reads-bind _ (get_u64-Reads m.stream_id h.stream_id) (
    Reads-bind _ (get_u64-Reads m.epoch h.epoch) (
      Reads-bind _ (get_u64-Reads m.start_offset h.start_offset) (
        Reads-bind _ (get_u64-Reads m.end_offset h.end_offset) (
          Reads-bind _ (get_state-Reads m.state)
            (Reads-map _ (get_i32-Reads m.node_id h.node_id))))))

read_result-Reads : (r : MetadataResult) → IsResult r → Reads read_result (encode_result r) r
unfolding read_result encode_result put_result result_of
read_result-Reads unit h =
    Reads-bind _ check_version-Reads (Reads-last _ (get_u8-Reads 0) (Reads-pure unit))
read_result-Reads (id i) h =
    Reads-bind _ check_version-Reads
      (Reads-bind _ (get_u8-Reads 1) (Reads-map id (get_u64-Reads i h)))
read_result-Reads (count n) h =
    Reads-bind _ check_version-Reads
      (Reads-bind _ (get_u8-Reads 2) (Reads-map count (get_u64-Reads n h)))
read_result-Reads (stream m) h =
    Reads-bind _ check_version-Reads
      (Reads-bind _ (get_u8-Reads 3) (Reads-map stream (get_stream-Reads m h)))
read_result-Reads (value none) h =
    Reads-bind _ check_version-Reads (Reads-last _ (get_u8-Reads 6) (Reads-pure (value none)))
read_result-Reads (value (some v)) h =
    Reads-bind _ check_version-Reads (
      Reads-bind _ (get_u8-Reads 5)
        (Reads-map (λ (x : Bytes). value (some x)) (get_blob-Reads v h)))

-- A result whose fields fit their types is decoded from its bytes to itself; with any byte behind
-- them it is refused.
pub decode_result-encode_result :
    (r : MetadataResult) (b : ℕ) (rest : Bytes)
    → IsResult r
    → (decode_result (encode_result r) ≡ ok r)
      × (decode_result (encode_result r ++ (b ∷ rest)) ≡ err corrupt)
unfolding decode_result
decode_result-encode_result r b rest h =
    (drained (read_result-Reads r h), trailing b rest (read_result-Reads r h))

not_zero : (v : ℕ) → v ≢ 0 → (v == 0) ≡ false
not_zero v h = ground arith

read_version :
    {A : Type 0} (f : Reader CodecError A) (v : ℕ) (rest : Bytes)
    → v ≢ 0
    → bind ((check_version >>= λ _. f) (v ∷ rest)) ensure_drained ≡ err (unsupported_version v)
unfolding check_version ◌>>=◌
read_version f v rest h =
    rw ((get_u8-Reads v).reads rest, not_zero v h) (unfold reject_if failing in refl)

-- Bytes of another version than 0 decode to nothing, whatever follows.
pub decode-version :
    (v : ℕ) (rest : Bytes)
    → v ≢ 0
    → (decode_command (v ∷ rest) ≡ err (unsupported_version v))
      × (decode_batch (v ∷ rest) ≡ err (unsupported_version v))
      × (decode_result (v ∷ rest) ≡ err (unsupported_version v))
unfolding decode_command decode_batch decode_result read_command read_batch read_result
decode-version v rest h =
    (read_version _ v rest h, read_version _ v rest h, read_version _ v rest h)
