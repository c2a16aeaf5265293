-- ===== src/Buffer.antt =====
-- The write buffer of src/buffer.rs: requests to a namespace are gathered and committed as one log
-- entry.
pub mod State
pub mod Steps
pub mod Rate
pub mod Watched
pub mod Stranded
pub mod Gather
