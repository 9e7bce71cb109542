-- ===== src/Params.antt =====
-- src/params/mod.rs and src/params/patterns.rs: the parsed protocol name and the handshake patterns.
pub mod Choices
pub mod Pattern
pub mod Table
pub mod Modifier
pub mod Tokens
pub mod Readable
pub mod PreMessages
pub mod Writable
pub mod NoiseParams
pub mod Names
pub mod StaticKeys
pub mod PskPosition
pub mod RoundTrip
