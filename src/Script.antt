-- ===== src/Script.antt =====
-- internal/script: the script that a person reads before running it.
pub mod Comment
pub mod Render
pub mod Lines
pub mod Read
