-- ===== src/Cache.antt =====
-- stage2/05-cache/cache.
pub mod Lru
pub mod Basic
pub mod Singleflight
