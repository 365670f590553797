-- ===== src/Rebac.antt =====
-- internal/access/authorization/rebac/rebac.go
pub mod Refs
pub mod Resolve
pub mod Sound
mod Visited
pub mod Total
mod Closure
pub mod Complete
pub mod Store
pub mod Service
pub mod WriteCheck
pub mod Keys
pub mod Expand
pub mod Edges
pub mod Covering
mod Tests
mod DepthCap
mod KeyClash
