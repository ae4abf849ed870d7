-- ===== src/Catalog.antt =====
-- The service catalog (apps/ddash/internal/application/servicecatalog): dependencies between services
-- and the statistics of lead times.
pub mod Dependencies
pub mod Graph
pub mod LeadTimes
mod Tests
