-- ===== src/Main.antt =====
-- main_handler.h and main_handler.cc, `MainHandler`: what the first port keeps for all, and what each
-- port does with a request until it has a handler to pass it to. The monitors are in Monitors.
pub mod Registry
pub mod Descriptors
pub mod Requests
pub mod Dispatch
pub mod Attaching
pub mod Ending
pub mod Replies
mod Tests
pub mod Entry
pub mod Input
pub mod Kept
pub mod Open
pub mod Arriving
pub mod Started
