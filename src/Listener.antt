-- ===== src/Listener.antt =====
-- listener.h and listener.cc, `Listener`: the queue of processes that wait for a connection, the requests,
-- and what becomes of a datagram.
pub mod Defs
pub mod Incoming
pub mod Queue
pub mod Watched
pub mod Steps
pub mod Reachable
pub mod Service
pub mod Stopping
pub mod Replies
mod Tests
