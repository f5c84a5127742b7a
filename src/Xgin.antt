-- ===== src/Xgin.antt =====
-- The package xgin: the chain of handlers of a request, the response writer, and the routes and
-- requests of an engine.
pub mod Chain
pub mod ResponseWriter
pub mod Engine
