-- ===== src/Tests.antt =====
-- Tests, and the theorems at concrete inputs.
mod Fixtures
mod Log
mod Commits
mod Stores
mod Views
mod Indexes
mod Buffers
mod Storage
mod FullText
mod Caches
mod Ranking
mod Requests
