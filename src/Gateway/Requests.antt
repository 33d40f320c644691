-- ===== src/Gateway/Requests.antt =====
-- The requests on the channels of a session (src/ssh/mod.rs, src/ssh/proxy.rs).
pub mod Session
pub mod Handlers
pub mod Step
pub mod Clean
pub mod Policy
pub mod Input
pub mod Switch
mod Tests
