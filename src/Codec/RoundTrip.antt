-- ===== src/Codec/RoundTrip.antt =====
-- What is stored comes back.
pub mod Value
pub mod Row
pub mod Columns
