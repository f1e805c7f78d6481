-- ===== src/Metadata/Tests/Retries.antt =====
-- The theorems on commands that are sent again, and on fences, at the states of a small log.
use picomq.Prelude.{
  List, All, some, ltb, true, arith, ◌≡◌, refl, [], ◌∷◌, pos, int_ord, nat_ord, pair_ord, false,
}
use picomq.Engine.{CommitStreamSetObjectRequest}
use picomq.OrdMap.{get, scan, insert, empty, update}
use picomq.Metadata.Command
use picomq.Metadata.Command.{proposer, Proposer, MetadataResult, unit}
use picomq.Metadata.Error.{ok, err, redundant, ◌>>◌}
use picomq.Metadata.State.{StreamRow, ObjectSpan, MetadataState, new_state, put_stream}
use picomq.Metadata.State.Objects.{
  remove_prepared, put_stream_set_object, remove_stream_set_object, put_range, add_stream_bytes,
}
use picomq.Metadata.Query.{is_live}
use picomq.Metadata.Apply.{apply, apply_inner, dispatch}
use picomq.Metadata.Apply.Nodes.{
  register_node, registered, kept, assigned_epoch, check_proposer, fence_node,
}
use picomq.Metadata.Apply.Streams.{create_stream, open_stream, open_newer, require_stream}
use picomq.Metadata.Apply.Objects.{check_object_id_free, advance_end_offset}
use picomq.Metadata.Apply.Commit.{
  commit_stream_set_object, commit_new, commit_set, commit_objects, advance_ranges, committed_row,
  redundant_commit_check, find_sources, data_time, latest_write,
}
use picomq.Metadata.Retries.{commit-retries, open-retries}
use picomq.Metadata.Registration.{fence-ends}
use picomq.Metadata.Query.Spans.{object_spans, set_span, sort_spans, insert_span}
use picomq.Metadata.SpanOrder.{IsOrdered, object_spans-IsOrdered}
use picomq.Metadata.Log.{Log}
use picomq.Metadata.Tests.{node_a, a, s₂, s₃, s₄, after, fresh_row, open_row, found₂}

abbrev pub request : CommitStreamSetObjectRequest
request = record {
  object_id = 7;
  object_size = 4;
  attributes = 0;
  stream_ranges =
      record { stream_id = 0; epoch = 1; start_offset = 0; end_offset = 10; size = 4 } ∷ [];
  stream_objects = [];
  compacted_object_ids = [];
}

abbrev pub committed : MetadataState
committed = after s₃ (Command.commit_stream_set_object a request (pos 9))

pub log_committed : Log 0 new_state committed
unfolding new_state get insert empty apply apply_inner proposer dispatch register_node ◌>>◌
log_committed = Log.step (Command.register_node node_a) tt (
    Log.step (Command.create_stream a) (omega arith) (
      Log.step (Command.open_stream a 0 (pos 1)) tt
        (Log.step (Command.commit_stream_set_object a request (pos 9)) tt Log.done)))

commits : commit_stream_set_object 0 s₃ (pos 1) request (pos 9) ≡ ok (committed, unit)
unfolding new_state get insert empty apply apply_inner proposer dispatch register_node registered
    kept assigned_epoch check_proposer create_stream open_stream open_newer require_stream
    put_stream commit_stream_set_object commit_new commit_set commit_objects advance_ranges
    advance_end_offset check_object_id_free committed_row redundant_commit_check find_sources
    data_time latest_write remove_prepared put_stream_set_object remove_stream_set_object put_range
    add_stream_bytes update ◌>>◌
commits = refl

commit-retries_example :
    commit_stream_set_object 0 committed (pos 1) request (pos 12) ≡ err redundant
commit-retries_example =
    commit-retries 0 s₃ committed (pos 1) (pos 1) request (pos 9) (pos 12) unit refl commits

open-retries_example :
    (t : MetadataState) × (r : MetadataResult) × (open_stream s₂ (pos 1) 0 (pos 3) ≡ ok (t, r))
    × (open_stream t (pos 1) 0 (pos 3) ≡ ok (t, r))
open-retries_example = open-retries s₂ (pos 1) 0 (pos 3) fresh_row found₂ refl refl refl

abbrev fenced : MetadataState
fenced = after s₄ (Command.fence_node a (pos 2) (pos 5) 0)

fences : fence_node s₄ a (pos 2) (pos 5) 0 ≡ ok (fenced, unit)
unfolding new_state get insert empty apply apply_inner proposer dispatch register_node registered
    kept assigned_epoch check_proposer create_stream open_stream open_newer require_stream
    put_stream fence_node ◌>>◌
fences = refl

fence-ends_example : is_live fenced (record { node_id = pos 2; node_epoch = pos 5 }) ≡ false
fence-ends_example = fence-ends s₄ fenced a (pos 2) (pos 5) 0 unit (pos 5) fences

abbrev committed_stream : StreamRow
committed_stream = record open_row { end_offset = 10; stored_bytes = 4 }

abbrev spans : List ObjectSpan
spans = record { start_offset = 0; end_offset = 10; bytes = 4; last_write_ms = pos 9 } ∷ []

committed_found : get 0 committed.streams ≡ some committed_stream
unfolding new_state get insert empty apply apply_inner proposer dispatch register_node registered
    kept assigned_epoch check_proposer create_stream open_stream open_newer require_stream
    put_stream commit_stream_set_object commit_new commit_set commit_objects advance_ranges
    advance_end_offset check_object_id_free committed_row redundant_commit_check find_sources
    data_time latest_write remove_prepared put_stream_set_object remove_stream_set_object put_range
    add_stream_bytes update ◌>>◌
committed_found = refl

spans_found : object_spans committed 0 ≡ some spans
unfolding new_state get insert empty apply apply_inner proposer dispatch register_node registered
    kept assigned_epoch check_proposer create_stream open_stream open_newer require_stream
    put_stream commit_stream_set_object commit_new commit_set commit_objects advance_ranges
    advance_end_offset check_object_id_free committed_row redundant_commit_check find_sources
    data_time latest_write remove_prepared put_stream_set_object remove_stream_set_object put_range
    add_stream_bytes update ◌>>◌ object_spans set_span sort_spans insert_span scan
spans_found = refl

object_spans-IsOrdered_example :
    IsOrdered spans
    × All (λ (x : ObjectSpan). ltb committed_stream.start_offset x.end_offset ≡ true) spans
object_spans-IsOrdered_example =
    object_spans-IsOrdered committed 0 committed_stream spans committed_found spans_found
