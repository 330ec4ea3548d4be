-- ===== src/Tests.antt =====
-- Runs of the model, and the theorems at concrete inputs.
pub mod Codec
pub mod Reverse
pub mod Store
pub mod Change
pub mod Binlog
pub mod Source
pub mod Script
pub mod Dsn
pub mod Api
pub mod Preflight
