-- ===== src/Metadata/Tests.antt =====
-- A small log and the theorems of the metadata plane at its states.
pub mod Fencing
pub mod Tables
pub mod Commands
pub mod Retries
pub mod Codec
use picomq.Prelude.{
  ℕ, ◌≡◌, refl, ◌<◌, Bool, true, false, Option, none, some, List, [], ◌∷◌, arith, ℤ, pos, negsuc,
  int_ord, nat_ord, bytes_ord, u64_mod,
}
use picomq.Engine.{closed, opened}
use picomq.OrdMap.{get, insert, empty, update, len, scan, remove}
use picomq.Metadata.Command
use picomq.Metadata.Command.{Proposer, Registration, MetadataCommand, Text, Bytes, proposer}
use picomq.Metadata.Error.{Result, ok, err, ◌>>◌}
use picomq.Metadata.State.{StreamRow, MetadataState, new_state, put_stream, remove_stream}
use picomq.Metadata.Query.{is_live}
use picomq.Metadata.Apply.{apply, apply_inner, dispatch}
use picomq.Metadata.Apply.Nodes.{
  register_node, registered, assigned_epoch, kept, check_proposer, heartbeat, check_owner,
}
use picomq.Metadata.Apply.Streams.{
  create_stream, open_stream, open_newer, require_stream, delete_stream, delete_found,
  forget_stream,
}
use picomq.Metadata.Apply.Kv.{put_kv}
use picomq.Metadata.State.Kv as Table
use picomq.Metadata.Apply.Objects.{prepare_object}
use picomq.Metadata.State.Objects.{put_prepared}
use picomq.Metadata.Log.{Log}

abbrev pub node_a : Registration
node_a = record {
  node_id = pos 1;
  node_epoch = pos 5;
  http_address = 104 ∷ [];
  slots = 2;
  protocol_addresses = empty;
  wal = [];
}

abbrev pub a : Proposer
a = record { node_id = pos 1; node_epoch = pos 5 }

abbrev pub after : MetadataState → MetadataCommand → MetadataState
after s c = (apply 0 s c).0

abbrev pub s₁ : MetadataState
s₁ = after new_state (Command.register_node node_a)

abbrev pub s₂ : MetadataState
s₂ = after s₁ (Command.create_stream a)

abbrev pub s₃ : MetadataState
s₃ = after s₂ (Command.open_stream a 0 (pos 1))

-- Another node joins, and `node_a` registers again.
abbrev pub node_b : Registration
node_b = record node_a { node_id = pos 2 }

abbrev pub s₄ : MetadataState
s₄ = after s₃ (Command.register_node node_b)

abbrev pub s₅ : MetadataState
s₅ = after s₁ (Command.register_node node_a)

-- The stream is deleted before it is opened.
abbrev pub gone : MetadataState
gone = after s₂ (Command.delete_stream a 0 (negsuc 0))

abbrev pub fresh_row : StreamRow
fresh_row = record {
  stream_id = 0;
  epoch = negsuc 0;
  start_offset = 0;
  end_offset = 0;
  state = closed;
  node_id = negsuc 0;
  stored_bytes = 0;
}

abbrev pub open_row : StreamRow
open_row = record fresh_row { epoch = pos 1; state = opened; node_id = pos 1 }

pub log₁ : Log 0 new_state s₁
unfolding new_state get empty
log₁ = Log.step (Command.register_node node_a) tt Log.done

pub log₃ : Log 0 new_state s₃
unfolding new_state get insert empty update apply apply_inner proposer dispatch register_node
    registered kept assigned_epoch check_proposer is_live create_stream open_stream open_newer
    require_stream put_stream heartbeat delete_stream delete_found check_owner forget_stream
    remove_stream len scan remove ◌>>◌
log₃ = Log.step (Command.register_node node_a) tt (
    Log.step (Command.create_stream a) (omega arith)
      (Log.step (Command.open_stream a 0 (pos 1)) tt Log.done))

pub log₂ : Log 0 new_state s₂
unfolding new_state get insert empty update apply apply_inner proposer dispatch register_node
    registered kept assigned_epoch check_proposer is_live create_stream open_stream open_newer
    require_stream put_stream heartbeat delete_stream delete_found check_owner forget_stream
    remove_stream len scan remove ◌>>◌
log₂ =
    Log.step (Command.register_node node_a) tt
      (Log.step (Command.create_stream a) (omega arith) Log.done)

pub again : Log 0 s₁ s₅
unfolding new_state get insert empty update apply apply_inner proposer dispatch register_node
    registered kept assigned_epoch check_proposer is_live create_stream open_stream open_newer
    require_stream put_stream heartbeat delete_stream delete_found check_owner forget_stream
    remove_stream len scan remove ◌>>◌
again = Log.step (Command.register_node node_a) (refl, refl) Log.done

pub opens : Log 0 s₂ s₃
opens = Log.step (Command.open_stream a 0 (pos 1)) tt Log.done

pub beats : Log 0 s₃ (after s₃ (Command.heartbeat a))
beats = Log.step (Command.heartbeat a) tt Log.done

pub live₁ : is_live s₁ a ≡ true
unfolding new_state get insert empty update apply apply_inner proposer dispatch register_node
    registered kept assigned_epoch check_proposer is_live create_stream open_stream open_newer
    require_stream put_stream heartbeat delete_stream delete_found check_owner forget_stream
    remove_stream len scan remove ◌>>◌
live₁ = refl

pub dead₁ : is_live s₁ (record a { node_epoch = pos 4 }) ≡ false
unfolding new_state get insert empty update apply apply_inner proposer dispatch register_node
    registered kept assigned_epoch check_proposer is_live create_stream open_stream open_newer
    require_stream put_stream heartbeat delete_stream delete_found check_owner forget_stream
    remove_stream len scan remove ◌>>◌
dead₁ = refl

pub dead₅ : is_live s₅ a ≡ false
unfolding new_state get insert empty update apply apply_inner proposer dispatch register_node
    registered kept assigned_epoch check_proposer is_live create_stream open_stream open_newer
    require_stream put_stream heartbeat delete_stream delete_found check_owner forget_stream
    remove_stream len scan remove ◌>>◌
dead₅ = refl

pub found₂ : get 0 s₂.streams ≡ some fresh_row
unfolding new_state get insert empty update apply apply_inner proposer dispatch register_node
    registered kept assigned_epoch check_proposer is_live create_stream open_stream open_newer
    require_stream put_stream heartbeat delete_stream delete_found check_owner forget_stream
    remove_stream len scan remove ◌>>◌
found₂ = refl

pub found₃ : get 0 s₃.streams ≡ some open_row
unfolding new_state get insert empty update apply apply_inner proposer dispatch register_node
    registered kept assigned_epoch check_proposer is_live create_stream open_stream open_newer
    require_stream put_stream heartbeat delete_stream delete_found check_owner forget_stream
    remove_stream len scan remove ◌>>◌
found₃ = refl

pub found₃' : get 0 (after s₃ (Command.heartbeat a)).streams ≡ some open_row
unfolding new_state get insert empty update apply apply_inner proposer dispatch register_node
    registered kept assigned_epoch check_proposer is_live create_stream open_stream open_newer
    require_stream put_stream heartbeat delete_stream delete_found check_owner forget_stream
    remove_stream len scan remove ◌>>◌
found₃' = refl

pub found₄ : get 0 s₄.streams ≡ some open_row
unfolding new_state get insert empty update apply apply_inner proposer dispatch register_node
    registered kept assigned_epoch check_proposer is_live create_stream open_stream open_newer
    require_stream put_stream heartbeat delete_stream delete_found check_owner forget_stream
    remove_stream len scan remove ◌>>◌
found₄ = refl

pub gone_next : 0 < gone.next_stream_id
unfolding new_state get insert empty update apply apply_inner proposer dispatch register_node
    registered kept assigned_epoch check_proposer is_live create_stream open_stream open_newer
    require_stream put_stream heartbeat delete_stream delete_found check_owner forget_stream
    remove_stream len scan remove ◌>>◌
gone_next = omega arith

pub gone_none : get 0 gone.streams ≡ none
unfolding new_state get insert empty update apply apply_inner proposer dispatch register_node
    registered kept assigned_epoch check_proposer is_live create_stream open_stream open_newer
    require_stream put_stream heartbeat delete_stream delete_found check_owner forget_stream
    remove_stream len scan remove ◌>>◌
gone_none = refl

pub log_gone : Log 0 new_state gone
unfolding new_state get insert empty update apply apply_inner proposer dispatch register_node
    registered kept assigned_epoch check_proposer is_live create_stream open_stream open_newer
    require_stream put_stream heartbeat delete_stream delete_found check_owner forget_stream
    remove_stream len scan remove ◌>>◌
log_gone = Log.step (Command.register_node node_a) tt (
    Log.step (Command.create_stream a) (omega arith)
      (Log.step (Command.delete_stream a 0 (negsuc 0)) tt Log.done))

pub gone_creates : Log 0 gone (after gone (Command.create_stream a))
unfolding new_state get insert empty update apply apply_inner proposer dispatch register_node
    registered kept assigned_epoch check_proposer is_live create_stream open_stream open_newer
    require_stream put_stream heartbeat delete_stream delete_found check_owner forget_stream
    remove_stream len scan remove ◌>>◌
gone_creates = Log.step (Command.create_stream a) (omega arith) Log.done

-- A key is stored, and two object ids are leased until 15.
abbrev pub key : Text
key = 107 ∷ []

abbrev pub one : Bytes
one = 49 ∷ []

abbrev pub stored : MetadataState
stored = after s₁ (Command.put_kv a key one)

pub live_stored : is_live stored a ≡ true
unfolding new_state get insert empty update apply apply_inner proposer dispatch register_node
    registered kept assigned_epoch check_proposer is_live create_stream open_stream open_newer
    require_stream put_stream heartbeat delete_stream delete_found check_owner forget_stream
    remove_stream len put_kv Table.put_kv prepare_object put_prepared scan remove ◌>>◌
live_stored = refl

abbrev pub leasing : MetadataState
leasing = after s₁ (Command.prepare_object a 2 (pos 10) (pos 5))

pub log_leasing : Log 0 new_state leasing
unfolding new_state get insert empty update apply apply_inner proposer dispatch register_node
    registered kept assigned_epoch check_proposer is_live create_stream open_stream open_newer
    require_stream put_stream heartbeat delete_stream delete_found check_owner forget_stream
    remove_stream len put_kv Table.put_kv prepare_object put_prepared scan remove ◌>>◌
log_leasing =
    Log.step (Command.register_node node_a) tt
      (Log.step (Command.prepare_object a 2 (pos 10) (pos 5)) (omega arith) Log.done)
