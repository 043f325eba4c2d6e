-- ===== src/Rbac.antt =====
-- src/services/RBACService.ts: roles with inheritance, permissions, policies and their conditions.
pub mod Values
pub mod Types
pub mod Roles
pub mod Growth
pub mod Reach
pub mod Collecting
pub mod Decisions
pub mod Laws
pub mod Service
pub mod Schemas
pub mod Tests
