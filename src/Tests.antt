-- ===== src/Tests.antt =====
-- A platform, runs of the definitions on it, and the theorems at concrete inputs.
pub mod Sample
pub mod Session
pub mod Signing
pub mod Boot
pub mod Dumps
pub mod Crypto
pub mod Items
pub mod Commands
pub mod Protocol
pub mod Sr25519
pub mod Vectors
