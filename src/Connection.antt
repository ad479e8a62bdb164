-- ===== src/Connection.antt =====
-- c_src/utp_handler.h and c_src/utp_handler.cc, `UtpHandler`: one uTP connection, with client.cc and
-- server.cc, which derive from it.
pub mod Defs
pub mod Callbacks
pub mod Control
pub mod Closing
pub mod Writing
pub mod Receiving
pub mod Stopping
pub mod Messages
pub mod Output
pub mod Sending
pub mod Peers
pub mod Replies
pub mod Deselecting
pub mod Incoming
mod Tests
