-- ===== src/Metadata/Codec.antt =====
-- picomq/pico-metadata/src/codec.rs: the wire form of commands, batches and results, little-endian.
-- This file has the primitives that the decoder checks. The text of an error is left out.
pub mod Primitives
pub mod Requests
pub mod Body
pub mod Whole
pub mod Fields
pub mod RequestsBack
pub mod Bodies
pub mod RoundTrip
