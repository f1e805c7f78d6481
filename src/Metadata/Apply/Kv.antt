-- ===== src/Metadata/Apply/Kv.antt =====
-- picomq/pico-metadata/src/apply.rs: the key-value commands.
use picomq.Prelude.{none, some, bytes_ord, ◌==◌, if◌then◌else◌}
use picomq.OrdMap.{get}
use picomq.Metadata.Error.{ok, err, redundant}
use picomq.Metadata.Command.{Text, Bytes, value}
use picomq.Metadata.State.{MetadataState}
use picomq.Metadata.State.Kv as Table
use picomq.Metadata.Apply.Nodes.{Outcome}

unfoldable pub put_kv : MetadataState → Text → Bytes → Outcome
put_kv s key v = ok (Table.put_kv s key v, value (some v))

unfoldable pub put_kv_if_absent : MetadataState → Text → Bytes → Outcome
put_kv_if_absent s key v = elim (get key s.kv) [
  | some existing ↦ ok (s, value (some existing))
  | none ↦ ok (Table.put_kv s key v, value (some v))
]

unfoldable pub delete_kv : MetadataState → Text → Outcome
delete_kv s key = let (s', old) = Table.remove_kv s key in ok (s', value old)

unfoldable pub put_kv_if_matches : MetadataState → Text → Bytes → Bytes → Outcome
unfolding put_kv
put_kv_if_matches s key expected v = elim (get key s.kv) [
  | some current ↦ if current == expected then put_kv s key v else err redundant
  | none ↦ err redundant
]

unfoldable pub delete_kv_if_matches : MetadataState → Text → Bytes → Outcome
unfolding delete_kv
delete_kv_if_matches s key expected = elim (get key s.kv) [
  | some current ↦ if current == expected then delete_kv s key else err redundant
  | none ↦ err redundant
]
