-- ===== src/Wal.antt =====
-- The write-ahead log of src/wal.rs: documents, log entries, their wire format, and what an entry
-- does to a map of documents.
pub mod Entry
pub mod Codec
pub mod Format
pub mod RoundTrip
pub mod Apply
pub mod Rows
pub mod Effect
pub mod Batching
pub mod Replay
pub mod Delta
