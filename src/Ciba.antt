-- ===== src/Ciba.antt =====
-- Backchannel authentication (internal/federation/oidc/ciba.go).
pub mod Requests
pub mod Token
pub mod Run
pub mod Left
pub mod Once
pub mod Quiet
pub mod Unapproved
pub mod Approved
pub mod Tests
