-- ===== src/Oidc.antt =====
-- The token endpoint (internal/federation/oidc/oidc.go): authorization codes, refresh tokens, token exchange.
pub mod Rows
pub mod Codes
pub mod Refreshing
pub mod Exchange
pub mod Authentic
pub mod Fields
pub mod Narrow
pub mod Outcomes
pub mod Run
pub mod Granted
pub mod Redeem
pub mod CodeFlow
pub mod Spent
pub mod CodeOnce
pub mod Changes
pub mod RefreshOnce
pub mod Replay
pub mod PassedOn
pub mod Backed
pub mod Tests
