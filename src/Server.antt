-- ===== src/Server.antt =====
-- picomq/pico-server: the service of one node: its errors, its record codec and the idempotent
-- producers of a stream.
pub mod Error
pub mod Codec
pub mod Producers
