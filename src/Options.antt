-- ===== src/Options.antt =====
-- c_src/socket_handler.cc and socket_handler.h, `SocketHandler::SockOpts`: the options of a socket,
-- read from the binary that gen_utp.erl makes, and merged into those that stand.
-- An `int` and a `long` are integers; bytes are numbers below 256. Reading past the end of the
-- binary, and an address that does not fit into `addrstr`, are faults.
pub mod Defs
pub mod Scan
pub mod Encoding
pub mod RoundTrip
pub mod Merging
mod Tests
