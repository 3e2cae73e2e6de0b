-- ===== src/Budget.antt =====
-- backend/src/adoptimizer/domain/budget.py: how a run moves daily budgets between campaigns.
pub mod Slots
pub mod Fill
pub mod Holds
pub mod Bounds
pub mod Conserve
pub mod Sums
pub mod Plan
pub mod Optimal
pub mod Rounded
mod Examples
