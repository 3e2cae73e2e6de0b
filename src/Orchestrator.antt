-- ===== src/Orchestrator.antt =====
-- backend/src/adoptimizer/orchestrator: the state that flows through the agents, and their order.
pub mod State
pub mod Survivors
pub mod Graph
pub mod Counting
pub mod Executors
mod Examples
