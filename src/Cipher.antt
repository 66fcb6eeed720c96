-- ===== src/Cipher.antt =====
-- crates/cipher: authenticated encryption, key wrapping and the selector.
pub mod Primitives
pub mod Aead
pub mod Keywrap
pub mod Ecies
pub mod RoundTrip
pub mod Nonces
mod Examples
pub mod Sample
