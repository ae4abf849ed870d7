-- ===== src/Settings.antt =====
-- The settings of organizations and the metadata of services: their tables, the adapter, which
-- replaces them in one transaction, and OrganizationConfigService.
pub mod Queries
pub mod Adapter
pub mod Config
pub mod Flags
pub mod Tests
