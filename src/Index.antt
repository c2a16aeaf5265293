-- ===== src/Index.antt =====
-- The index segments of src/index/: the keys of values, the postings of the filter segment and its
-- answers, and the full-text segment.
pub mod Values
pub mod Postings
pub mod FilterSegment
pub mod Indexed
pub mod Matching
pub mod FullText
