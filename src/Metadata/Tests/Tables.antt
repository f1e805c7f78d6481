-- ===== src/Metadata/Tests/Tables.antt =====
-- The invariants of the tables at a small log.
use picomq.Metadata.Reachable.{
  reachable-IsIndexed, reachable-IsLeased, reachable-IsCommitted, reachable-IsCounted,
  reachable-IsSetIndexed,
}
use picomq.Metadata.Indexed.{IsIndexed}
use picomq.Metadata.Leases.{IsLeased}
use picomq.Metadata.Committed.{IsCommitted}
use picomq.Metadata.KvBytes.{IsCounted}
use picomq.Metadata.SetIndex.{IsSetIndexed}
use picomq.Metadata.Query.{get_server_objects}
use picomq.Prelude.{◌≡◌, true, is_some, pos}
use picomq.Metadata.Tests.{s₃, log₃, leasing, log_leasing}
use picomq.Metadata.Tests.Retries.{committed, log_committed}

reachable-IsIndexed_example : IsIndexed s₃
reachable-IsIndexed_example = reachable-IsIndexed 0 log₃

reachable-IsLeased_example : IsLeased leasing
reachable-IsLeased_example = reachable-IsLeased 0 log_leasing

reachable-IsCommitted_example : IsCommitted committed
reachable-IsCommitted_example = reachable-IsCommitted 0 log_committed

reachable-IsCounted_example : IsCounted s₃
reachable-IsCounted_example = reachable-IsCounted 0 log₃

reachable-IsSetIndexed_example :
    IsSetIndexed committed × (is_some (get_server_objects committed (pos 1)) ≡ true)
reachable-IsSetIndexed_example = reachable-IsSetIndexed 0 log_committed (pos 1)
