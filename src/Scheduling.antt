-- ===== src/Scheduling.antt =====
-- backend/src/adoptimizer/services/scheduling.py and repositories/scheduling.py: scheduled pulls of
-- metrics, with a watermark for each feed and a lease for each pull.
pub mod Plan
pub mod Leases
pub mod Exclusion
pub mod Tick
pub mod Outcomes
mod Examples
