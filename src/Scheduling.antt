-- ===== src/Scheduling.antt =====
-- How far the index is behind, when compaction runs, and which log segments are read or deleted:
-- src/indexer.rs, src/wal_compaction.rs, src/models.rs.
pub mod Lag
pub mod Compaction
pub mod Bounds
