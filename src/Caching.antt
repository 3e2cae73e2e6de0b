-- ===== src/Caching.antt =====
-- backend/src/adoptimizer/infra/cache.py: the cache of a process without Redis.
pub mod Store
pub mod Forgets
pub mod Size
mod Examples
