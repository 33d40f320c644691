-- ===== src/Config.antt =====
-- The configuration of src/config/mod.rs: its data, its validation, the policies it resolves to,
-- and the store that keeps it.
pub mod Types
pub mod Validate
pub mod Semantics
pub mod Policy
pub mod Store
pub mod Credentials
pub mod Migration
pub mod Accepted
pub mod Example
mod StoreTests
mod Tests
