-- ===== src/Crypto.antt =====
-- src/crypto: the encrypted channel and what it takes from the cryptographic libraries.
pub mod Primitives
pub mod Channel
