-- ===== src/Gateway/Login.antt =====
-- The login dialogue of src/ssh/mod.rs: its state, the handlers of the responses, and what a
-- session that is accepted went through.
pub mod State
pub mod Audit
pub mod Entries
pub mod Responses
pub mod Enrollment
pub mod Dialogue
pub mod History
pub mod Progress
pub mod Evidence
pub mod Steps
pub mod Switches
pub mod Sound
pub mod Selection
pub mod Checks
pub mod Safety
pub mod Passed
pub mod Outcomes
pub mod Completion
pub mod Enrolled
mod Tests
