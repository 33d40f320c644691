-- ===== src/Kex.antt =====
-- The key exchange policy of src/crypto_policy.rs.
pub mod Policy
pub mod Laws
