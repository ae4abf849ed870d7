-- ===== src/Settings/Flags.antt =====
-- Feature flags: what an update stores of them, and what is read back.
pub mod Rows
pub mod Untouched
pub mod Stored
pub mod Read
pub mod Trip
