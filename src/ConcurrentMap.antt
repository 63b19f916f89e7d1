-- ===== src/ConcurrentMap.antt =====
-- stage2/08-concurrent-map/cmap: maps that many goroutines share.
pub mod Sharding
pub mod RwMutex
pub mod Sharded
pub mod Ttl
