-- ===== src/Events.antt =====
-- orchestrator/events.py: the fan-out of the events of runs.
pub mod Bus
pub mod Order
pub mod Runs
pub mod Queues
mod Examples
