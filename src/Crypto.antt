-- ===== src/Crypto.antt =====
-- src/libcat.rs and raknet-c/libcat.cpp: keys, handshakes and authenticated encryption.
pub mod Interface
pub mod Shim
pub mod Encryption
pub mod Handshake
