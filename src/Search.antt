-- ===== src/Search.antt =====
-- Queries of src/search.rs: the documents that a filter selects, and the order of results.
pub mod Tail
pub mod Candidates
pub mod Order
