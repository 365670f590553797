-- ===== src/Rbac.antt =====
-- Roles and permissions (internal/access/authorization/rbac) and the table of guarded routes.
pub mod Enforce
pub mod Table
pub mod Consistent
pub mod Gate
pub mod Roles
pub mod Explain
pub mod Agree
pub mod Assign
pub mod Scoped
pub mod Tests
