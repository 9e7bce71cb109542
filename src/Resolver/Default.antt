-- ===== src/Resolver/Default.antt =====
-- src/resolvers/default.rs: the wrappers of pure Rust crates, in a build without the features
-- `xchachapoly` and `pqclean_kyber1024`.
pub mod Ciphers
pub mod RoundTrip
pub mod Dh25519
pub mod Hashes
pub mod Resolve
pub mod Named
pub mod Digests
