-- ===== src/Ingest.antt =====
-- The ingestion of CDEvents over webhooks (apps/ddash/internal/app/services/ingestion.go,
-- apps/ddash/internal/webhooks/custom/handler.go,
-- apps/ddash/internal/infrastructure/sqlite/ingestion/store.go).
pub mod Sdk
pub mod Credentials
pub mod Validate
pub mod Service
pub mod Http
pub mod Apps
pub mod Batcher
pub mod Tests
