-- ===== src/Catalog/Dependencies.antt =====
-- Dependencies between services: their parsing, their table, and the services that write them.
pub mod Parsing
pub mod Queries
pub mod Adapter
pub mod Read
pub mod Write
pub mod Rows
pub mod Parsed
pub mod Kept
pub mod Added
