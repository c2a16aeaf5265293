-- ===== src/Meta.antt =====
-- The durable metadata of a namespace: src/meta.rs, and the commit of the indexer in src/indexer.rs.
pub mod Types
pub mod Fields
pub mod Commit
pub mod Valid
pub mod Metric
pub mod Chain
