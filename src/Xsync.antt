-- ===== src/Xsync.antt =====
-- The package xsync: the map, the semaphores, the reader/writer lock, the wait group, the call that is
-- made once, the condition, and the object pool with its rings and chains.
pub mod Map
pub mod Sema
pub mod RwMutex
pub mod WaitGroup
pub mod Once
pub mod Cond
pub mod PoolQueue
pub mod PoolChain
pub mod Pool
