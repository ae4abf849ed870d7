-- ===== src/Events.antt =====
-- The event store (internal/db/store.go and the query `AppendEventStore` of
-- internal/db/queries/queries.sql.go).
pub mod Log
pub mod Tx
pub mod Append
pub mod Laws
pub mod Faults
pub mod Reference
pub mod Atomic
pub mod Delivery
mod Tests
