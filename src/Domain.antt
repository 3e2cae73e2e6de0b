-- ===== src/Domain.antt =====
-- backend/src/adoptimizer/domain: the vocabulary that every layer shares.
pub mod Enums
pub mod Access
