-- ===== src/Storage/Memory.antt =====
-- internal/adapter/storage/memory: the cache and the store in memory.
pub mod Cache
pub mod Store
