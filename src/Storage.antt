-- ===== src/Storage.antt =====
-- Writes and exports of src/storage.rs: the rows of a write request, its conditions, and pages of
-- documents.
pub mod Writes
pub mod ByFilter
pub mod Export
