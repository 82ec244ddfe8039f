-- ===== src/Rules.antt =====
-- The rules under src/rules.
pub mod LockRelease
