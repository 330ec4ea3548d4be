-- ===== src/Source.antt =====
-- internal/source/mysql: the stream of a server's binlog becomes transactions in the store.
pub mod Assemble
pub mod Log
pub mod Marked
pub mod Packed
pub mod Whole
pub mod Dsn
pub mod Sink
pub mod Collect
pub mod Stream
pub mod Keeps
pub mod Stored
pub mod Gaps
pub mod Journal
pub mod Preflight
