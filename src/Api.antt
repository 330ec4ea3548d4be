-- ===== src/Api.antt =====
-- internal/api: what the handlers do with the store.
pub mod Changes
pub mod Cursor
pub mod Listed
pub mod Pages
