-- ===== src/Identity.antt =====
-- services/organization_management.go and services/helpers.go: organizations, their members and
-- their join requests. application/identity/service.go passes every method on unchanged.
pub mod Tokens
pub mod Access
pub mod Create
pub mod Members
pub mod Lifecycle
mod Tests
