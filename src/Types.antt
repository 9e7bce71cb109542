-- ===== src/Types.antt =====
-- The traits of src/types.rs, as interfaces that the rest of the crate takes as instances, and their
-- default methods `rekey`, `hmac` and `hkdf`. The `Kem` trait belongs to the `hfs` feature.
mod Traits
mod Hmac
pub mod Laws
pub mod Total
unfoldable pub use Traits.*
unfoldable pub use Hmac.{xor_into, Outputs, hmac, hkdf}
