-- ===== src/Reverse.antt =====
-- internal/reverse: the SQL that undoes a row change.
pub mod Literal
pub mod Equality
pub mod Statement
pub mod Reading
pub mod Plan
pub mod Bounds
