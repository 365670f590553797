-- ===== src/Abac.antt =====
-- internal/access/authorization/abac/abac.go
pub mod Json
pub mod Compare
pub mod Condition
pub mod Total
pub mod Related
pub mod Alike
pub mod Operators
pub mod Leaves
pub mod Meaning
pub mod Faithful
pub mod Validate
pub mod TypeErrors
pub mod Validated
pub mod Decide
pub mod DenyWins
pub mod Panic
pub mod Service
pub mod Stored
pub mod Effects
mod Tests
mod ServiceTests
