-- ===== src/Actions.antt =====
-- backend/src/adoptimizer/services/actions.py: approving, rejecting and executing proposals.
pub mod Records
pub mod Monad
pub mod Push
pub mod Apply
pub mod Service
pub mod Frame
pub mod Gate
pub mod Trail
pub mod Vouched
pub mod Once
pub mod Bulk
mod Examples
