-- ===== src/Metadata/Codec/Whole.antt =====
-- picomq/pico-metadata/src/codec.rs: commands, batches (one entry of the log each) and results,
-- behind a version byte and with nothing left over.
use picomq.Prelude.{ℕ, none, some, List, ◌++◌, nat_ord, ◌==◌, if◌then◌else◌, Bytes}
use picomq.Engine.{StreamMetadata, StreamState, closed, opened}
use picomq.Wire.{Outcome, Reader, bind, ◌>>=◌, pure, failing, many}
use picomq.Wire.Reads.{join}
use picomq.Metadata.Command.{MetadataCommand, MetadataResult, unit, id, count, stream, value}
use picomq.Metadata.Codec.Primitives.{
  CodecError, corrupt, unknown_result, put_u8, put_u64, put_i32, put_len, put_blob, get_u8, get_u32,
  get_u64, get_i32, get_blob, codec_version, check_version, ensure_drained,
}
use picomq.Metadata.Codec.Body.{put_command_body, get_command_body}

unfoldable pub encode_command : MetadataCommand → Bytes
unfolding put_command_body
encode_command command = put_u8 codec_version ++ put_command_body command

unfoldable pub read_command : Reader CodecError MetadataCommand
unfolding check_version get_command_body
read_command = check_version >>= λ _. get_command_body

unfoldable pub decode_command : Bytes → Outcome CodecError MetadataCommand
unfolding read_command ensure_drained
decode_command bytes = bind (read_command bytes) ensure_drained

unfoldable pub encode_batch : List MetadataCommand → Bytes
unfolding put_command_body
encode_batch commands = put_u8 codec_version ++ (put_len commands ++ join put_command_body commands)

unfoldable pub read_batch : Reader CodecError (List MetadataCommand)
unfolding check_version get_u32 get_command_body
read_batch = check_version >>= λ _. get_u32 >>= λ n. many n get_command_body

unfoldable pub decode_batch : Bytes → Outcome CodecError (List MetadataCommand)
unfolding read_batch ensure_drained
decode_batch bytes = bind (read_batch bytes) ensure_drained

abbrev pub state_byte : StreamState → ℕ
state_byte closed = 0
state_byte opened = 1

unfoldable pub put_stream : StreamMetadata → Bytes
put_stream m =
    put_u64 m.stream_id
    ++ (put_u64 m.epoch
        ++ (put_u64 m.start_offset
            ++ (put_u64 m.end_offset ++ (put_u8 (state_byte m.state) ++ put_i32 m.node_id))))

unfoldable pub put_result : MetadataResult → Bytes
unfolding put_stream put_blob
put_result unit = put_u8 0
put_result (id i) = put_u8 1 ++ put_u64 i
put_result (count n) = put_u8 2 ++ put_u64 n
put_result (stream m) = put_u8 3 ++ put_stream m
put_result (value (some v)) = put_u8 5 ++ put_blob v
put_result (value none) = put_u8 6

unfoldable pub encode_result : MetadataResult → Bytes
unfolding put_result
encode_result result = put_u8 codec_version ++ put_result result

unfoldable pub state_of_byte : ℕ → Reader CodecError StreamState
state_of_byte b = if b == 0 then pure closed else if b == 1 then pure opened else failing corrupt

unfoldable pub get_state : Reader CodecError StreamState
unfolding get_u8 state_of_byte
get_state = get_u8 >>= state_of_byte

unfoldable pub get_stream : Reader CodecError StreamMetadata
unfolding get_u64 get_state get_i32
get_stream = get_u64 >>= λ stream_id. get_u64 >>= λ epoch. get_u64 >>= λ start_offset.
    get_u64 >>= λ end_offset. get_state >>= λ state. get_i32 >>= λ node_id. pure (record {
      stream_id = stream_id;
      epoch = epoch;
      start_offset = start_offset;
      end_offset = end_offset;
      state = state;
      node_id = node_id;
    })

unfoldable pub result_of : ℕ → Reader CodecError MetadataResult
unfolding get_u64 get_stream get_blob
result_of tag =
    if tag == 0
    then pure unit
    else if tag == 1
    then (get_u64 >>= λ i. pure (id i))
    else if tag == 2
    then (get_u64 >>= λ n. pure (count n))
    else if tag == 3
    then (get_stream >>= λ m. pure (stream m))
    else if tag == 5
    then (get_blob >>= λ v. pure (value (some v)))
    else if tag == 6
    then pure (value none)
    else failing (unknown_result tag)

unfoldable pub read_result : Reader CodecError MetadataResult
unfolding check_version get_u8 result_of
read_result = check_version >>= λ _. get_u8 >>= result_of

unfoldable pub decode_result : Bytes → Outcome CodecError MetadataResult
unfolding read_result ensure_drained
decode_result bytes = bind (read_result bytes) ensure_drained
