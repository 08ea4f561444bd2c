-- ===== src/Verify.antt =====
-- internal/verify: the checks of a finished medium.
pub mod Bls
pub mod Policy
pub mod Hashes
