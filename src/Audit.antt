-- ===== src/Audit.antt =====
-- internal/operations/audit
pub mod Chain
pub mod Append
pub mod Tamper
mod Tests
