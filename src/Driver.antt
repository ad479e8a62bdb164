-- ===== src/Driver.antt =====
-- What passes between the driver and the Erlang runtime: the replies of `control` as the calls of
-- `EiEncoder` that make them, in order, and the messages as the `ErlDrvTermData` specifications.
pub mod Defs
pub mod Shape
pub mod Queue
pub mod Binaries
pub mod CountedStore
pub mod ListQueue
pub mod Memory
pub mod Exhausted
mod Tests
