-- ===== src/Signin.antt =====
-- internal/access/authentication
pub mod Attempts
pub mod Check
pub mod Lock
pub mod Cleared
pub mod Proven
pub mod Outcome
mod Tests
