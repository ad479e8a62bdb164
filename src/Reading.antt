-- ===== src/Reading.antt =====
-- c_src/socket_handler.cc, the delivery of what has been received: `emit_read_buffer`,
-- `reduce_read_count`, `move_read_data` and `emit_closed_message`.
pub mod Defs
pub mod Moving
pub mod Addressed
pub mod Delivery
pub mod Raw
pub mod Shapes
pub mod Framed
mod Tests
