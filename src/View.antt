-- ===== src/View.antt =====
-- The view of a namespace that queries read (src/view.rs), and the cache of views (src/view_cache.rs).
pub mod State
pub mod Load
pub mod Tracked
pub mod Eventual
pub mod Cache
pub mod Cold
