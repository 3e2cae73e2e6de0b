-- ===== src/Llm.antt =====
-- llm: the gateway through which every agent calls a model, and the ledger of what it spends.
pub mod Records
pub mod Gateway
pub mod Attempts
pub mod Capped
pub mod Spending
mod Examples
