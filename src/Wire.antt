-- ===== src/Wire.antt =====
-- The byte-level reading and writing that the codecs share: `bytes::Buf` and `BufMut` on a byte
-- slice, by the documented layout of their integers, and `str::from_utf8` of the standard library.
pub mod Buffer
pub mod Words
pub mod Utf8
pub mod Reads
unfoldable pub use Buffer.*
unfoldable pub use Words.*
unfoldable pub use Utf8.*
