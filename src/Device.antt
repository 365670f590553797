-- ===== src/Device.antt =====
-- internal/federation/oidc/device.go
pub mod Rows
pub mod Flow
pub mod Token
pub mod Moves
pub mod Run
pub mod Refine
pub mod Poll
pub mod Once
pub mod Promise
pub mod Scoped
pub mod Complete
mod Tests
