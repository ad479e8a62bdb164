-- ===== src/Sockets.antt =====
-- c_src/socket_handler.cc, the requests that every socket answers (`sockname`, `setopts`,
-- `getopts`), the start of its input, and the opening of a UDP socket.
pub mod Defs
pub mod Opening
pub mod Replies
pub mod Answers
mod Tests
