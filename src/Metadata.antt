-- ===== src/Metadata.antt =====
-- picomq/pico-metadata: the replicated metadata state, its commands and its theorems.
pub mod Error
pub mod Command
pub mod State
pub mod Query
pub mod Apply
pub mod Kept
pub mod Lineage
pub mod Log
pub mod Fencing
pub mod Indexed
pub mod KvBytes
pub mod Leases
pub mod Committed
pub mod Registration
pub mod KvEffects
pub mod LeastLoaded
pub mod Transfer
pub mod Codec
pub mod Retries
pub mod SetIndex
pub mod SpanOrder
pub mod Reachable
pub mod Tests
