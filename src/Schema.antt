-- ===== src/Schema.antt =====
-- The schema of a namespace (src/schema.rs) and the columns that it makes vectors
-- (src/index/vector.rs).
pub mod Text
pub mod Specs
pub mod Merge
pub mod Normal
