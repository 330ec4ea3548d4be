-- ===== src/Store.antt =====
-- internal/store: the rolling window of changes, held in SQLite.
pub mod Schema
pub mod Tx
pub mod Rows
pub mod Append
pub mod Coverage
pub mod Read
pub mod Prune
pub mod Source
pub mod Atomic
pub mod Redelivery
pub mod Window
pub mod Marks
pub mod Wellformed
pub mod Effects
pub mod Steps
pub mod Events
pub mod Order
pub mod Reading
pub mod Status
pub mod Healthy
pub mod Gaps
pub mod History
pub mod Kept
pub mod Binding
