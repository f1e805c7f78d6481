-- ===== src/Metadata/Tests/Fencing.antt =====
-- The theorems on fencing and registration at a small log.
use picomq.Prelude.{
  ◌≡◌, refl, ◌≤◌, true, false, none, pos, leb, int_ord, nat_ord, if◌then◌else◌, ◌==◌,
}
use picomq.Engine.{is_opened}
use picomq.OrdMap.{get, insert, empty}
use picomq.Metadata.Command
use picomq.Metadata.Command.{proposer}
use picomq.Metadata.Error.{err, node_epoch_mismatch, ◌>>◌}
use picomq.Metadata.State.{new_state}
use picomq.Metadata.Query.{is_live}
use picomq.Metadata.Apply.{apply, apply_inner, dispatch}
use picomq.Metadata.Apply.Nodes.{register_node, registered, assigned_epoch}
use picomq.Metadata.Fencing.{apply-dead, dead-for-good, stream-grows, one-writer, deleted-for-good}
use picomq.Metadata.Registration.{register-lives, register-fences}
use picomq.Metadata.Log.{Log}
use picomq.Metadata.Reachable.{reachable-IsIndexed}
use picomq.Metadata.Tests.{
  node_a, a, after, s₁, s₅, gone, open_row, fresh_row, log₁, log₂, log₃, again, opens, beats, live₁,
  dead₁, dead₅, found₂, found₃, found₃', gone_next, gone_none, log_gone, gone_creates,
}

apply-dead_example :
    apply 0 s₁ (Command.heartbeat (record a { node_epoch = pos 4 }))
    ≡ (s₁, err (node_epoch_mismatch (pos 1)))
unfolding proposer
apply-dead_example =
    apply-dead 0 s₁ (record a { node_epoch = pos 4 })
      (Command.heartbeat (record a { node_epoch = pos 4 })) refl dead₁

dead-for-good_example :
    apply 0 s₅ (Command.create_stream a) ≡ (s₅, err (node_epoch_mismatch (pos 1)))
unfolding proposer
dead-for-good_example =
    dead-for-good 0 a (Command.create_stream a) (reachable-IsIndexed 0 log₁).ids live₁ again dead₅
      Log.done refl

one-writer_example : (is_opened open_row.state ≡ true) × (open_row.node_id ≡ open_row.node_id)
one-writer_example =
    one-writer 0 0 open_row open_row (reachable-IsIndexed 0 log₃).ids found₃ beats found₃' refl refl

stream-grows_example :
    (leb fresh_row.epoch open_row.epoch ≡ true) × (fresh_row.start_offset ≤ open_row.start_offset)
stream-grows_example =
    stream-grows 0 0 fresh_row open_row (reachable-IsIndexed 0 log₂).ids found₂ opens found₃

deleted-for-good_example : get 0 (after gone (Command.create_stream a)).streams ≡ none
deleted-for-good_example =
    deleted-for-good 0 0 (reachable-IsIndexed 0 log_gone).ids gone_next gone_none gone_creates

register-lives_example :
    is_live s₅ a ≡ (if a.node_id == node_a.node_id then pos 6 == a.node_epoch else is_live s₁ a)
unfolding new_state get insert empty apply apply_inner proposer dispatch register_node registered
    assigned_epoch ◌>>◌
register-lives_example = register-lives 0 s₁ node_a a

register-fences_example : is_live s₅ a ≡ false
unfolding new_state get insert empty apply apply_inner proposer dispatch register_node registered
    assigned_epoch ◌>>◌
register-fences_example = register-fences 0 s₁ node_a a (refl, refl) refl live₁
