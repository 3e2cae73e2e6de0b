-- ===== src/Tools.antt =====
-- backend/src/adoptimizer/tools: what an agent may do, and what happened when it tried.
pub mod Spec
pub mod Executor
pub mod Call
pub mod Finish
pub mod Interlock
pub mod Advance
pub mod Accounting
pub mod Kept
pub mod Idempotency
mod Examples
