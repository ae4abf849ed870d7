-- ===== src/Routes.antt =====
-- The HTTP handlers of apps/ddash/internal/server/routes.
pub mod Organizations
mod Tests
