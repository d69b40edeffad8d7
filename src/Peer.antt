-- ===== src/Peer.antt =====
-- The library object behind the wrapper: RakNet's class as the shim uses it, and the shim itself.
pub mod Interface
pub mod Shim
