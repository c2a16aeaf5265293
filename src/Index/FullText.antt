-- ===== src/Index/FullText.antt =====
-- The full-text segment of src/index/fts.rs, and its tokens (src/index/fts_tokenizer.rs).
pub mod Tokens
pub mod Segment
pub mod Counts
pub mod Lengths
pub mod Exact
pub mod Delta
pub mod Candidates
