-- ===== src/Wrapper.antt =====
-- The safe interface, src/rakpeer.rs.
pub mod Codes
pub mod Address
pub mod Socket
pub mod Startup
pub mod Sender
pub mod Packet
pub mod Receive
pub mod Text
pub mod Duration
pub mod Connect
pub mod Methods
pub mod Widths
