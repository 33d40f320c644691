-- ===== src/Auth.antt =====
-- Password, one-time code and rate limit checks (src/auth/mod.rs).
pub mod Crypto
pub mod Engine
pub mod Buckets
pub mod Passwords
pub mod Limits
pub mod Example
mod Tests
