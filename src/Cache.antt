-- ===== src/Cache.antt =====
-- The disk cache of index objects (src/cache.rs).
pub mod Disk
pub mod Current
pub mod Torn
