-- ===== src/Limits.antt =====
-- backend/src/adoptimizer/core/middleware.py: the limit on requests of one API process.
pub mod Window
pub mod Bound
mod Examples
