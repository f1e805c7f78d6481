-- ===== src/Server/Producers.antt =====
-- picomq/pico-server/src/producers.rs: the idempotent producers of one stream.
pub mod Kafka
pub mod Ledger
pub mod State
pub mod Rows
pub mod Sequence
pub mod Window
pub mod Retried
pub mod Steps
pub mod Landing
pub mod Kept
pub mod Once
pub mod Expired
pub mod Reachable
pub mod Refolded
pub mod StreamRow
pub mod Tests
