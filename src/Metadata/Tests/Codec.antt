-- ===== src/Metadata/Tests/Codec.antt =====
-- A batch, a result and foreign bytes through the codec.
use picomq.Prelude.{◌≡◌, refl, List, [], ◌∷◌, ◌++◌, All, arith, pos, some, bytes_ord}
use picomq.OrdMap.{iter, empty}
use picomq.Wire.{ok, err, is_utf8}
use picomq.Metadata.Command
use picomq.Metadata.Command.{MetadataCommand, MetadataResult, value}
use picomq.Metadata.Codec.Primitives.{corrupt, unsupported_version}
use picomq.Metadata.Codec.Whole.{
  decode_command, encode_batch, decode_batch, encode_result, decode_result,
}
use picomq.Metadata.Codec.Bodies.{IsCommand}
use picomq.Metadata.Codec.RoundTrip.{
  decode_batch-encode_batch, decode_result-encode_result, decode-version,
}
use picomq.Metadata.Tests.{node_a, a, key, one}

abbrev pub writes : MetadataCommand
writes = Command.put_kv_if_matches a key one (50 ∷ [])

abbrev pub opens : MetadataCommand
opens = Command.open_stream a 7 (pos 3)

abbrev pub batch : List MetadataCommand
batch = Command.register_node node_a ∷ writes ∷ opens ∷ []

pub writes-IsCommand : IsCommand writes
unfolding is_utf8
writes-IsCommand = (omega arith, (omega arith, refl), omega arith, omega arith)

pub batch-IsCommand : All IsCommand batch
unfolding is_utf8 iter empty
batch-IsCommand = (
  record {
    node_id = omega arith;
    node_epoch = omega arith;
    http_address = (omega arith, refl);
    slots = omega arith;
    protocol_addresses = (omega arith, tt);
    wal = (omega arith, refl);
  },
  (writes-IsCommand, (omega arith, tt)),
)

decode_batch-encode_batch_example :
    (decode_batch (encode_batch batch) ≡ ok batch)
    × (decode_batch (encode_batch batch ++ (9 ∷ [])) ≡ err corrupt)
decode_batch-encode_batch_example =
    decode_batch-encode_batch batch 9 [] (omega arith) batch-IsCommand

decode_result-encode_result_example :
    (decode_result (encode_result (value (some one))) ≡ ok (value (some one)))
    × (decode_result (encode_result (value (some one)) ++ (0 ∷ [])) ≡ err corrupt)
decode_result-encode_result_example =
    decode_result-encode_result (value (some one)) 0 [] (omega arith)

decode-version_example :
    (decode_command (3 ∷ one) ≡ err (unsupported_version 3))
    × (decode_batch (3 ∷ one) ≡ err (unsupported_version 3))
    × (decode_result (3 ∷ one) ≡ err (unsupported_version 3))
decode-version_example = decode-version 3 one (omega arith)
