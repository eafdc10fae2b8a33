-- ===== src/Storage.antt =====
-- internal/adapter/storage: caches and price stores.
pub mod Key
pub mod Memory
pub mod BatchBuffer
pub mod Redis
