-- ===== src/Integrations.antt =====
-- The integrations with GitHub and GitLab: the mappings from installations and projects to
-- organizations, and the life of a setup intent.
pub mod Queries
pub mod Adapter
pub mod Install
pub mod Tests
