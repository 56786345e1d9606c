-- ===== src/Crypto.antt =====
-- internal/crypto: the ciphers around the primitives, the keys, and the service of the HTTP interface.
pub mod Padding
pub mod Ciphers
pub mod Signature
pub mod Service
pub mod Store
mod Tests
