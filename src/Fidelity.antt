-- ===== src/Fidelity.antt =====
-- The codec of internal/store against the renderer of internal/reverse: what is stored is what can be
-- rendered, and it renders the same afterwards.
pub mod Values
pub mod Statements
