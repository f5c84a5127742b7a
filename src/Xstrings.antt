-- ===== src/Xstrings.antt =====
-- The package xstrings: a builder of texts, and the join of texts.
pub mod Builder
pub mod Join
mod Tests
