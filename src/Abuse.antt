-- ===== src/Abuse.antt =====
-- The fail2ban tracker of src/abuse.rs: settings, the per-address entries, the tracker around them.
pub mod Types
pub mod Core
pub mod Window
pub mod Invariant
pub mod Runs
pub mod Bans
pub mod Isolation
pub mod Threshold
pub mod Settings
pub mod Whitelist
pub mod Tracker
pub mod Restart
pub mod Service
pub mod Example
mod Tests
