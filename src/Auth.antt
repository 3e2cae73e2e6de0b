-- ===== src/Auth.antt =====
-- backend/src/adoptimizer/services/auth.py and repositories/users.py: accounts and sessions.
pub mod Records
pub mod Repository
pub mod Password
pub mod Service
pub mod Sessions
pub mod Moves
pub mod Kept
pub mod Rotation
pub mod Rows
pub mod Admins
pub mod Lockout
pub mod Locked
pub mod SignOut
mod Examples
