-- ===== src/Xsync1.antt =====
-- The package xsync1: the group of single flights, and the group of tasks.
pub mod SingleFlight
pub mod ErrGroup
