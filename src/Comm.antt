-- ===== src/Comm.antt =====
-- comm.c: messages over a socket, and the sockets themselves. What the calls `read` and `write` return or
-- find is an argument, as the list of their results in order.
mod Defs
pub mod Delivery
pub mod Lines
pub mod Receive
pub mod Network
pub mod Sockets
pub mod Descriptors
unfoldable pub use Defs.*
