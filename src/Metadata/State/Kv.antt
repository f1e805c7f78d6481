-- ===== src/Metadata/State/Kv.antt =====
-- picomq/pico-metadata/src/state.rs: the key-value table and its byte count.
use picomq.Prelude.{ℕ, ◌+◌, Option, none, some, bytes_ord, add_u64, sub_u64, length}
use picomq.OrdMap.{get, insert, remove}
use picomq.Metadata.Command.{Text, Bytes}
use picomq.Metadata.State.{MetadataState}

-- What an entry adds to `kv_bytes`.
abbrev pub entry_bytes : Text → Bytes → ℕ
entry_bytes key value = length key + length value

abbrev pub less_old : Text → ℕ → Option Bytes → ℕ
less_old key bytes none = bytes
less_old key bytes (some old) = sub_u64 bytes (entry_bytes key old)

unfoldable pub put_kv : MetadataState → Text → Bytes → MetadataState
put_kv s key value = record s {
  kv_bytes = less_old key (add_u64 s.kv_bytes (entry_bytes key value)) (get key s.kv);
  kv = insert key value s.kv;
}

abbrev pub remove_found : MetadataState → Text → Option Bytes → MetadataState × Option Bytes
remove_found s key none = (s, none)
remove_found s key (some old) = (
  record s { kv = remove key s.kv; kv_bytes = sub_u64 s.kv_bytes (entry_bytes key old) },
  some old,
)

unfoldable pub remove_kv : MetadataState → Text → MetadataState × Option Bytes
remove_kv s key = remove_found s key (get key s.kv)
