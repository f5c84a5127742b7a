-- ===== src/Netpoll.antt =====
-- The package netpoll: how a goroutine waits for a descriptor, the descriptors, and the poll with epoll.
pub mod Wait
pub mod Cache
pub mod Epoll
