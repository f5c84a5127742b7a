-- ===== src/Xfasthttp.antt =====
-- The package xfasthttp: the pool of workers, and the server that hands connections to it.
pub mod WorkerPool
pub mod Server
