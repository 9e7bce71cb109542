-- ===== src/Params/Choices.antt =====
-- The choices of primitives of src/params/mod.rs and their `FromStr` implementations, in a build
-- without the `hfs` and `xchachapoly` features.
use screech.Base.{Bytes, codes, bytes_eq, if◌then◌else◌}
use screech.Error.{
  pattern_error, unsupported_base_type, unsupported_dh_type, unsupported_cipher_type,
  unsupported_hash_type,
}
use screech.Outcome.{Outcome, ok, err}

pub data BaseChoice : Type 0 where
  noise : BaseChoice

pub data DhChoice : Type 0 where
  curve25519 ed448 : DhChoice

pub data CipherChoice : Type 0 where
  cha_cha_poly aesgcm : CipherChoice

pub data HashChoice : Type 0 where
  sha256 sha512 blake2s blake2b : HashChoice

unfoldable pub parse_base : Bytes → Outcome BaseChoice
parse_base s =
    if bytes_eq s (codes "Noise") then ok noise else err (pattern_error unsupported_base_type)

unfoldable pub parse_dh : Bytes → Outcome DhChoice
parse_dh s =
    if bytes_eq s (codes "25519")
    then ok curve25519
    else if bytes_eq s (codes "448")
    then ok ed448
    else err (pattern_error unsupported_dh_type)

unfoldable pub parse_cipher : Bytes → Outcome CipherChoice
parse_cipher s =
    if bytes_eq s (codes "ChaChaPoly")
    then ok cha_cha_poly
    else if bytes_eq s (codes "AESGCM")
    then ok aesgcm
    else err (pattern_error unsupported_cipher_type)

unfoldable pub parse_hash : Bytes → Outcome HashChoice
parse_hash s =
    if bytes_eq s (codes "SHA256")
    then ok sha256
    else if bytes_eq s (codes "SHA512")
    then ok sha512
    else if bytes_eq s (codes "BLAKE2s")
    then ok blake2s
    else if bytes_eq s (codes "BLAKE2b")
    then ok blake2b
    else err (pattern_error unsupported_hash_type)
