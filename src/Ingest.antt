-- ===== src/Ingest.antt =====
-- services/ingest.py: what a feed asserts becomes stored daily aggregates.
pub mod Records
pub mod Tables
pub mod Attribution
pub mod Placing
pub mod Books
pub mod Batch
pub mod Accounts
pub mod Upsert
pub mod Written
pub mod Duplicates
pub mod Disposed
pub mod Report
pub mod Again
pub mod Resolved
pub mod Unanimous
pub mod Addressed
pub mod Source
pub mod Scheduled
mod Examples
