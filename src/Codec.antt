-- ===== src/Codec.antt =====
-- internal/store/codec.go: the record format of the stored row images and column lists.
pub mod Varint
pub mod Format
pub mod Encode
pub mod Decode
pub mod RoundTrip
pub mod Prefix
pub mod Canonical
pub mod Reencode
