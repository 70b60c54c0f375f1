-- ===== src/Organization.antt =====
-- Organizations and their members (apps/api/internal/organization).
pub mod Role
pub mod Repository
pub mod Service
pub mod Owners
pub mod Rights
mod Tests
