-- ===== src/Namespace.antt =====
-- The objects of one namespace on the object store, and the functions that write and read them:
-- src/namespace.rs, src/wal_compaction.rs and the snapshot of src/wal.rs.
pub mod Store
pub mod Append
pub mod Load
pub mod Race
pub mod Commit
pub mod History
pub mod Keyed
pub mod Durable
