-- ===== src/Binlog.antt =====
-- internal/binlog: rows events of a binlog become changes.
pub mod Event
pub mod Convert
pub mod Read
pub mod Images
pub mod Valid
