-- ===== src/Critic.antt =====
-- backend/src/adoptimizer/agents/critic.py: the agent that reconciles conflicting proposals.
pub mod Proposal
pub mod Finding
pub mod Sets
pub mod Rules
pub mod Review
pub mod Marks
pub mod Groups
pub mod Conflicts
pub mod Verdict
mod Examples
